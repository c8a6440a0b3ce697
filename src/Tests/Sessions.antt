-- ===== src/Tests/Sessions.antt =====
-- Sessions of src/session.cc on a parser that knows one request.
use https_server.Prelude.{
  ℕ, zero, suc, inl, inr, ◌≡◌, refl, ap, arith, [], ◌∷◌, none, some, true, false, Bytes, codes,
  equal, if◌then◌else◌, length,
}
use https_server.Dispatcher.{get_request_handler}
use https_server.StdMap.{insert, lookup}
use https_server.Handlers.{Handler}
use https_server.Http.{Request, Beast, new_response, Reply, replied}
use https_server.Session.{
  https, http, Session, Metrics, faults, max_length, new_session, start, read_first,
  handle_handshake, send_response, complete_read, count_request, write_response, handshaken,
  received, end_of_request, handle_read,
}
use https_server.StdString.{c_string}
use https_server.Session.Lifecycle.{IsValid, Reachable, started, stepped, Reachable-IsValid}
use https_server.Session.Counting.{History, began, went_on}
use https_server.Session.Answers.{Answer, send_response-Answer}
use https_server.Session.Reassembly.{deliver, holding, deliver-send_response}
use https_server.Session.Overrun.{deliver-faults}
use https_server.Tests.{dispatcher}

abbrev pub request_text : Bytes
request_text = codes "GET / HTTP/1.1\r\n\r\n"

abbrev pub request : Request
request = record { method = codes "GET"; target = codes "/"; version = 11; fields = [] }

abbrev pub beast : Beast
unfolding equal
beast = record {
  parse_request = λ text. if equal text request_text then some request else none;
  prepare_payload = λ r. r;
  same_result = λ r. refl;
  same_body = λ r. refl;
}

abbrev pub echo : Handler → Metrics → Request → Reply
echo handler m req = replied (record new_response { body = req.target })

abbrev pub no_metrics : Metrics
no_metrics = record { request_count = 0; handled_requests = [] }

abbrev pub shaken : Session
shaken = read_first (new_session https)

pub shaken-Reachable : Reachable beast dispatcher echo shaken
unfolding start handle_handshake
shaken-Reachable = stepped no_metrics no_metrics (started https) (handshaken false refl)

Reachable-IsValid_example : IsValid shaken
Reachable-IsValid_example = Reachable-IsValid beast dispatcher echo shaken shaken-Reachable

abbrev pub complete : Session
complete = holding (new_session https) request_text

-- What one request leaves.
abbrev pub one_request : Metrics
one_request = count_request (codes "/") 200 no_metrics

pub one_request-History : History beast dispatcher echo one_request
unfolding complete_read send_response handle_read get_request_handler insert lookup c_string
    end_of_request equal
one_request-History =
    went_on shaken (write_response complete (record new_response { body = codes "/" })) began
      (received 0 (some request_text) refl (omega arith) refl)

send_response-Answer_example :
    Answer beast dispatcher echo no_metrics complete
      (send_response beast dispatcher echo no_metrics complete)
send_response-Answer_example = send_response-Answer beast dispatcher echo no_metrics complete

pub text_whole : c_string request_text ≡ request_text
unfolding c_string
text_whole = refl

pub text_ends : end_of_request request_text ≡ true
unfolding end_of_request
text_ends = refl

pub text_ends_last : end_of_request (codes "GET / HTTP/1.1\r\n\r") ≡ false
unfolding end_of_request
text_ends_last = refl

deliver-send_response_example :
    deliver beast dispatcher echo no_metrics shaken
      (codes "GET / HT" ∷ codes "TP/1.1\r\n\r" ∷ codes "\n" ∷ [])
    ≡ send_response beast dispatcher echo no_metrics complete
deliver-send_response_example =
    deliver-send_response beast dispatcher echo no_metrics (new_session https)
      (codes "GET / HTTP/1.1\r\n\r") b'\n' (codes "GET / HT")
      (codes "TP/1.1\r\n\r" ∷ codes "\n" ∷ []) refl ((λ e. cc), ((λ e. cc), tt)) text_whole
      (omega arith) text_ends_last text_ends

repeat : ℕ → ℕ → Bytes
repeat zero c = []
repeat (suc n) c = c ∷ repeat n c

length-repeat : (n c : ℕ) → length (repeat n c) ≡ n
unfolding repeat
length-repeat zero c = refl
length-repeat (suc n) c = ap suc (length-repeat n c)

get_whole : c_string (codes "GET ") ≡ codes "GET "
unfolding c_string
get_whole = refl

get_waits : end_of_request (codes "GET ") ≡ false
unfolding end_of_request
get_waits = refl

deliver-faults_example :
    deliver beast dispatcher echo no_metrics
      (read_first (new_session http))
      (codes "GE" ∷ codes "T " ∷ repeat max_length b'/' ∷ codes "\n\n" ∷ [])
    ≡ faults
deliver-faults_example =
    deliver-faults beast dispatcher echo no_metrics (new_session http)
      (codes "GE" ∷ codes "T " ∷ []) (repeat max_length b'/') (codes "\n\n" ∷ []) get_whole
      (omega arith) get_waits (inl (omega (arith, length-repeat max_length b'/')))

-- A first read of as many bytes as the buffer has.
c_string-repeat : (n c : ℕ) → c_string (repeat n (suc c)) ≡ repeat n (suc c)
unfolding repeat c_string
c_string-repeat zero c = refl
c_string-repeat (suc n) c = let rest = c_string-repeat n c in ground (arith, rest)

full_read :
    deliver beast dispatcher echo no_metrics
      (read_first (new_session http))
      (repeat max_length b'/' ∷ [])
    ≡ faults
unfolding end_of_request
full_read =
    deliver-faults beast dispatcher echo no_metrics (new_session http) [] (repeat max_length b'/')
      [] (unfold c_string in refl) (omega arith) refl
      (inr (omega (arith, length-repeat max_length b'/'), c_string-repeat max_length 46))
