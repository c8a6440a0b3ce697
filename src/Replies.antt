-- ===== src/Replies.antt =====
-- `handle_request` of the handlers whose answer does not depend on a file or a host:
-- src/echo_handler.cc, src/404_handler.cc, src/health_handler.cc and src/sleep_handler.cc.
use https_server.Prelude.{
  ℕ, Option, none, some, List, [], ◌∷◌, ◌++◌, ◌==◌, if◌then◌else◌, Bytes, codes,
}
use https_server.Files.{content_type}
use https_server.Http.{Request, Response, Beast, Reply, new_response, set_field}

-- The loop over the fields; `http::to_string(field.name())` is Beast's name for the field, and is
-- given by `field_text`.
unfoldable pub echo_fields : (Bytes → Bytes) → List (Bytes × Bytes) → Bytes
echo_fields field_text [] = []
echo_fields field_text ((name, value) ∷ fields) =
    field_text name ++ (codes ": " ++ (value ++ (codes "\r\n" ++ echo_fields field_text fields)))

abbrev pub version_text : ℕ → Bytes
version_text version = if version == 11 then codes "1.1\r\n" else codes "1.0\r\n"

-- `method_string().data()` and `target().data()` are taken for texts that a zero byte ends, while
-- views have none: the bytes up to the next zero byte come with them, and where none stands behind
-- a view in its storage, what the code does is undefined.
abbrev pub echo_payload : (Bytes → Bytes) → Option Bytes → Option Bytes → Request → Option Bytes
echo_payload field_text (some behind_method) (some behind_target) request = some (
    request.method
    ++ (behind_method
        ++ (codes " "
            ++ (request.target
                ++ (behind_target
                    ++ (codes " HTTP/"
                        ++ (version_text request.version
                            ++ echo_fields field_text request.fields)))))))
echo_payload field_text _ _ request = none

abbrev pub text_response : Bytes → Response
text_response text = record (set_field content_type (codes "text/plain") new_response) {
  body = text;
}

abbrev pub reply_of_payload : Beast → Option Bytes → Reply
reply_of_payload beast none = Reply.undefined
reply_of_payload beast (some payload) =
    Reply.replied (beast.prepare_payload (text_response payload))

unfoldable pub handle_echo_request :
    Beast → (Bytes → Bytes) → Option Bytes → Option Bytes → Request → Reply
unfolding echo_fields
handle_echo_request beast field_text behind_method behind_target request =
    reply_of_payload beast (echo_payload field_text behind_method behind_target request)

unfoldable pub handle_404_request : Beast → Request → Response
handle_404_request beast request =
    beast.prepare_payload
      (record new_response { result = 404; body = codes "<h1>404 Not Found</h1>" })

unfoldable pub handle_health_request : Beast → Request → Response
handle_health_request beast request = beast.prepare_payload (text_response (codes "OK"))

-- The response is ready before the thread sleeps for five seconds.
unfoldable pub handle_sleep_request : Beast → Request → Response
handle_sleep_request beast request =
    beast.prepare_payload (text_response (codes "I slept for 5 seconds!"))
