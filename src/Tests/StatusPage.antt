-- ===== src/Tests/StatusPage.antt =====
-- The page of src/status_handler.cc behind one request.
use https_server.Prelude.{
  ◌≡◌, ◌↔◌, refl, [], ◌∷◌, some, none, Bytes, codes, equal, if◌then◌else◌, arith,
}
use https_server.Dispatcher.{get_request_handler}
use https_server.Handlers.{Handler, built}
use https_server.Http.{Request, Beast, Reply, replied, new_response}
use https_server.Session.Counting.{History, began, went_on}
use https_server.Session.Reassembly.{holding}
use https_server.Session.{
  http, Metrics, new_session, read_first, codes_so_far, received, count_request, write_response,
  complete_read, send_response, handle_read, end_of_request,
}
use https_server.Status.Views.{SameAnswers, status_page_iff}
use https_server.StdString.{c_string}
use https_server.Status.Counts.{response_key, occurrences, condense-occurrences}
use https_server.Status.Sums.{count_so_far}
use https_server.Status.{condense, request_info, status_page}
use https_server.StdMap.{insert, lookup}
use https_server.Tests.Sessions.{no_metrics, beast, echo, one_request, one_request-History}
use https_server.Tests.{dispatcher}

condense-occurrences_example :
    count_so_far (lookup (response_key (codes "/") 200) (condense one_request))
    ≡ occurrences 200 (codes_so_far (lookup (codes "/") one_request.handled_requests))
condense-occurrences_example =
    condense-occurrences beast dispatcher echo one_request (codes "/") 200 one_request-History

one_row :
    request_info (condense one_request) ≡ built (codes "<tr><td>/</td><td>200</td><td>1</td></tr>")
unfolding request_info condense insert lookup
one_row = refl

-- A parser that knows two requests, and a handler that finds nothing for one of them.
abbrev get_text : Bytes
get_text = codes "GET / HTTP/1.1\r\n\r\n"

abbrev post_text : Bytes
post_text = codes "POST / HTTP/1.1\r\n\r\n"

abbrev request_of : Bytes → Request
request_of method = record { method = method; target = codes "/"; version = 11; fields = [] }

abbrev two_requests : Beast
unfolding equal
two_requests = record {
  parse_request = λ text.
      if equal text get_text
      then some (request_of (codes "GET"))
      else if equal text post_text
      then some (request_of (codes "POST"))
      else none;
  prepare_payload = λ r. r;
  same_result = λ r. refl;
  same_body = λ r. refl;
}

abbrev only_get : Handler → Metrics → Request → Reply
unfolding equal
only_get handler m req =
    replied (record new_response { result = if equal req.method (codes "GET") then 200 else 404 })

-- The two requests in either order.
abbrev got : Metrics → Metrics
got = count_request (codes "/") 200

abbrev posted : Metrics → Metrics
posted = count_request (codes "/") 404

got-History :
    (m : Metrics)
    → History two_requests dispatcher only_get m
    → History two_requests dispatcher only_get (got m)
unfolding complete_read send_response handle_read get_request_handler c_string end_of_request equal
got-History m h =
    went_on (read_first (new_session http))
      (write_response (holding (new_session http) get_text) new_response) h
      (received 0 (some get_text) refl (omega arith) refl)

posted-History :
    (m : Metrics)
    → History two_requests dispatcher only_get m
    → History two_requests dispatcher only_get (posted m)
unfolding complete_read send_response handle_read get_request_handler c_string end_of_request equal
posted-History m h =
    went_on (read_first (new_session http))
      (write_response (holding (new_session http) post_text) (record new_response { result = 404 }))
      h (received 0 (some post_text) refl (omega arith) refl)

status_page_iff_example : SameAnswers (posted (got no_metrics)) (got (posted no_metrics)) ↔ (
    (condense (posted (got no_metrics)) ≡ condense (got (posted no_metrics)))
    × (status_page two_requests [] (posted (got no_metrics))
        ≡ status_page two_requests [] (got (posted no_metrics))))
status_page_iff_example =
    status_page_iff two_requests dispatcher only_get [] (posted (got no_metrics))
      (got (posted no_metrics)) (posted-History (got no_metrics) (got-History no_metrics began))
      (got-History (posted no_metrics) (posted-History no_metrics began))

-- The two states are other ones, and they hold the same answers.
posted_last : lookup (codes "/") (posted (got no_metrics)).handled_requests ≡ some (200 ∷ 404 ∷ [])
unfolding lookup insert equal
posted_last = refl

got_last : lookup (codes "/") (got (posted no_metrics)).handled_requests ≡ some (404 ∷ 200 ∷ [])
unfolding lookup insert equal
got_last = refl

same_answers : SameAnswers (posted (got no_metrics)) (got (posted no_metrics))
unfolding lookup insert
same_answers uri code = ground arith
