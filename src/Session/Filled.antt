-- ===== src/Session/Filled.antt =====
-- A session that `fill_data_with` of src/session.cc gives its text, as the tests do.
use https_server.Prelude.{
  ◌<◌, ◌-◌, ◌≡◌, ap, ◌∙◌, false, [], ◌++◌, append-nil, arith, Bytes, length, some, ltb,
}
use https_server.Http.{Beast, Request, Reply}
use https_server.Dispatcher.{Dispatcher}
use https_server.Handlers.{Handler}
use https_server.Session.{
  Session, Metrics, http, continues, max_length, new_session, start, end_of_request, fill_data_with,
  get_data, handle_read, read, read_first,
}
use https_server.Session.Text.{inside, store-append}
use https_server.StdString.{c_string}

-- A started session, filled with a text.
abbrev pub filled : Bytes → Session
filled msg = record (read_first (new_session http)) { buffer_data = msg }

fill_data_with_lem :
    (msg : Bytes)
    → c_string msg ≡ msg
    → length msg < max_length
    → fill_data_with (start (new_session http)) msg ≡ some (filled msg)
unfolding fill_data_with start
fill_data_with_lem msg whole small =
    let none_left : length msg - length msg ≡ 0 = omega arith in
    let fits : ltb max_length (length msg) ≡ false = ground arith in
    rw (whole, none_left, fits)
      (ap (λ text. some (filled text)) (store-append [] (msg ++ []) ∙ append-nil msg))

module _ (beast : Beast) (dispatcher : Dispatcher)
    (handle_request : Handler → Metrics → Request → Reply) (m : Metrics) (msg : Bytes)
    (whole : c_string msg ≡ msg) (small : length msg < max_length)
    (unfinished : end_of_request msg ≡ false) where
  -- The part of a request that a started session is filled with is kept, and the next read goes
  -- behind it.
  fill_data_with-handle_read :
      (s : Session) × (fill_data_with (start (new_session http)) msg ≡ some s)
      × (get_data s ≡ msg)
      × (handle_read beast dispatcher handle_request m s false
          ≡ continues m (record s { pending = some (read (length msg)) }))
  unfolding handle_read
  fill_data_with-handle_read = (
    filled msg,
    fill_data_with_lem msg whole small,
    whole,
    rw (inside (c_string msg) (rw whole small), unfinished)
        (ap (λ text. continues m (record (filled msg) { pending = some (read (length text)) }))
          whole),
  )
