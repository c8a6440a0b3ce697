-- ===== src/Tests.antt =====
-- Each theorem at an input that meets its hypotheses, and runs of the code on the texts of
-- tests/config_parser_test.cc and config/static_config.
mod Sessions
mod StatusPage
mod FileRequests
mod Networks
mod Programs
mod Worlds
mod Answers
mod Routes
mod Unrouted
mod Delivering
mod Lexemes
mod Ports
mod OneLocation
mod Statistics
mod Proxying
use https_server.Prelude.{equal, ◌≡◌, refl, true, false, [], ◌∷◌, ◌++◌, none, some, arith, codes}
use https_server.Config.Back.{append_config}
use https_server.Config.{Config, line, block, nil, cons, to_string}
use https_server.Dispatcher.{Dispatcher, init_handlers, get_request_handler, get_handler_name}
use https_server.Handlers.{file_handler, not_found_handler, built, undefined, parse_url, url}
use https_server.Lexer.Quotes.{quote, parse_token-quote}
use https_server.Lexer.{normal, token, parse_token}
use https_server.Parser.Appending.{parse-append_config}
use https_server.Parser.Loop.{accepted}
use https_server.Parser.Machine.{and_then}
use https_server.Parser.RoundTrip.{parse-to_string}
use https_server.Parser.Written.{ConfigIsPlain}
use https_server.Parser.Truncated.{parse-to_string_word}
use https_server.Parser.{parse, returned}
use https_server.Settings.Port.{here, get_port_number-Announces, port_of_value}
use https_server.Settings.{get_port_number, decimal, keyword}

abbrev listen : Config
listen = cons (line (codes "listen" ∷ codes "80" ∷ [])) nil

abbrev pub static : Config
static = cons (line (codes "listen" ∷ codes "80" ∷ [])) (
    cons
      (block (codes "location" ∷ codes "/static/" ∷ codes "FileHandler" ∷ [])
        (cons (line (codes "root" ∷ codes "/bar" ∷ [])) nil))
      nil)

pub static-ConfigIsPlain : ConfigIsPlain static
unfolding ConfigIsPlain
static-ConfigIsPlain = ground arith

parse-to_string_example : accepted (parse (to_string 0 static) nil) ≡ some static
parse-to_string_example = parse-to_string static 0 static-ConfigIsPlain

parse-append_config_example :
    accepted (parse (codes "b;") listen)
    ≡ and_then (accepted (parse (codes "b;") nil)) (λ d. some (append_config listen d))
parse-append_config_example = parse-append_config (codes "b;") listen

parse-to_string_word_example :
    accepted (parse (to_string 0 static ++ codes "forgotten") nil) ≡ some static
parse-to_string_word_example =
    parse-to_string_word static 0 (codes "forgotten") static-ConfigIsPlain (ground arith)

parse_token-quote_example :
    parse_token (quote (codes "with\" {;") ++ b';' ∷ codes " }")
    ≡ token normal (codes "with\" {;") (b';' ∷ codes " }")
parse_token-quote_example =
    parse_token-quote (codes "with\" {;") b';' (codes " }") (omega arith) refl

http_keyword : keyword (codes "HTTP") ≡ some (b'l' ∷ codes "isten")
unfolding equal
http_keyword = refl

get_port_number-Announces_example :
    get_port_number static (codes "HTTP") ≡ port_of_value (decimal 0 (codes "80"))
get_port_number-Announces_example =
    get_port_number-Announces (codes "HTTP") b'l' (codes "isten") b'8' (codes "0") http_keyword here
      (refl, (refl, tt))

abbrev pub dispatcher : Dispatcher
dispatcher = record {
  handlers =
      (codes "/", not_found_handler)
      ∷ (codes "/static", file_handler (codes "/static") (codes "/bar"))
      ∷ [];
  regnum = 2;
  handler_info = (codes "/", codes "404Handler") ∷ (codes "/static", codes "FileHandler") ∷ [];
}

pub init_handlers-static : init_handlers [] static ≡ built dispatcher
unfolding init_handlers
init_handlers-static = refl

-- A target that begins with no slash has no handler: `send_response` calls through the null
-- pointer.
no_handler : get_request_handler dispatcher (codes "*") ≡ none
unfolding get_request_handler
no_handler = refl

-- The URI's handler and the name that is logged for it.
chosen :
    (get_request_handler dispatcher (codes "/static/a.txt")
      ≡ some (file_handler (codes "/static") (codes "/bar")))
    × (get_handler_name dispatcher (codes "/static/a.txt") ≡ codes "FileHandler")
unfolding get_request_handler get_handler_name
chosen = (refl, refl)

-- A `location` with no block: the null `child_block_` is dereferenced.
no_block :
    init_handlers [] (cons (line (codes "location" ∷ codes "/e" ∷ codes "EchoHandler" ∷ [])) nil)
    ≡ undefined
unfolding init_handlers
no_block = refl

-- The path keeps its slash.
parse_url_lem :
    parse_url (codes "http://www.example.com/index.html")
    ≡ built (url (codes "http") (codes "www.example.com") (codes "/index.html"))
unfolding parse_url
parse_url_lem = refl

nested :
    parse (codes "server{location /foo {root /var;} }") nil
    ≡ returned true (
        cons
          (block (codes "server" ∷ []) (
            cons
              (block
                (codes "location" ∷ codes "/foo" ∷ [])
                (cons (line (codes "root" ∷ codes "/var" ∷ [])) nil))
              nil))
          nil)
unfolding parse
nested = refl

refused :
    (parse (codes "server{bar;} } ") nil
      ≡ returned false
          (cons (block (codes "server" ∷ []) (cons (line (codes "bar" ∷ [])) nil)) nil))
    × (parse (codes "foo bar #;") nil
        ≡ returned false (cons (line (codes "foo" ∷ codes "bar" ∷ [])) nil))
unfolding parse
refused = (refl, refl)
