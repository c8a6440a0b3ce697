-- ===== src/Session/Reading.antt =====
-- Where src/session.cc has the next read stored: `start`, `handle_handshake` and `append_data`.
use https_server.Prelude.{◌<◌, ◌≡◌, false, Option, some, Bytes, length}
use https_server.Dispatcher.{Dispatcher}
use https_server.Session.{Operation, read, Session, max_length, end_of_request}
use https_server.StdString.{c_string}

-- A read that is pending goes behind the text in the buffer, which is no whole request, and ends in
-- front of the buffer's end.
abbrev pub ReadsOn : Option Operation → Bytes → Type 0
ReadsOn (some (read offset)) buffer =
    (offset ≡ length (c_string buffer))
    × (length (c_string buffer) < max_length)
    × (end_of_request buffer ≡ false)
ReadsOn _ buffer = Unit

abbrev GoesOn : Session → Type 0
GoesOn s = ReadsOn s.pending s.buffer_data
