-- ===== src/Requests.antt =====
-- The virtual `RequestHandler::handle_request` of include/handler.h, by the class of the handler.
pub mod Safety
pub mod Delivery
pub mod Passing
use https_server.Prelude.{ℕ, List, Option, none, some, Bytes}
use https_server.Files.{handle_file_request}
use https_server.Handlers.{
  Handler, file_handler, echo_handler, not_found_handler, status_handler, proxy_handler,
  sleep_handler, health_handler, Built, built, threw, undefined,
}
use https_server.Http.{Request, Response, Beast, Reply}
use https_server.Proxy.{Network, Issued, handle_proxy_request}
use https_server.Replies.{
  handle_echo_request, handle_404_request, handle_health_request, handle_sleep_request,
}
use https_server.Session.{Metrics}
use https_server.Status.{status_page}

-- What the handlers find outside the program: Boost.Beast and its names of fields, the bytes up to
-- the next zero byte that stand behind the method and the target of a request in their storage, if
-- there is one, the file system and the network.
pub record World : Type 0 where
  pub beast : Beast
  pub field_text : Bytes → Bytes
  pub behind_method : Request → Option Bytes
  pub behind_target : Request → Option Bytes
  pub read_file : Bytes → Option Bytes
  pub network : Network

abbrev pub reply_of_built : Built Response → Reply
reply_of_built (built r) = Reply.replied r
reply_of_built threw = Reply.threw
reply_of_built undefined = Reply.undefined

-- A call that has used up its fuel counts as one that never returns.
abbrev pub reply_of_issued : Issued → Reply
reply_of_issued none = Reply.hung
reply_of_issued (some r) = reply_of_built r

-- The fuel bounds the redirections of a proxy; the list is `Dispatcher::handler_info`.
unfoldable pub handle_request :
    World → ℕ → List (Bytes × Bytes) → Handler → Metrics → Request → Reply
unfolding handle_file_request handle_echo_request handle_404_request status_page
    handle_proxy_request handle_sleep_request handle_health_request
handle_request w fuel handler_info (file_handler prefix root) m request =
    Reply.replied (handle_file_request w.beast w.read_file root request)
handle_request w fuel handler_info echo_handler m request =
    handle_echo_request w.beast w.field_text (w.behind_method request) (w.behind_target request)
      request
handle_request w fuel handler_info not_found_handler m request =
    Reply.replied (handle_404_request w.beast request)
handle_request w fuel handler_info status_handler m request =
    reply_of_built (status_page w.beast handler_info m)
handle_request w fuel handler_info (proxy_handler prefix host path port) m request =
    reply_of_issued (handle_proxy_request fuel w.network prefix host port request)
handle_request w fuel handler_info sleep_handler m request =
    Reply.replied (handle_sleep_request w.beast request)
handle_request w fuel handler_info health_handler m request =
    Reply.replied (handle_health_request w.beast request)
