-- ===== src/Programs/Api.antt =====
-- cmd/api/main.go `main`.
use email_proxy.Prelude.{Bool, List, [], ◌∷◌, Option, none, some}
use email_proxy.Prelude.Results.{Result, ok, err}
use email_proxy.Text.{Text}
use email_proxy.Services.{Env, World}
use email_proxy.Amqp.{Amqp}
use email_proxy.Keydb.Connect.{Redis, new_keydb_service, close_keydb_service}
use email_proxy.Queue.Connect.{new_queue_service, close_queue_service}
use email_proxy.Tokens.{Crypto, Fresh}
use email_proxy.Senders.Process.{start_api, api_dependencies}
use email_proxy.Api.Auth.{JwtToken}
use email_proxy.Api.Routes.{Entry, Request, serve}
use email_proxy.Programs.{
  Machine, Exit, database, keydb, rabbitmq, serving, fatal, finished, Gorm, Pool, an_hour,
  init_database, Meanwhile,
}

abbrev pub api_pool : Pool
api_pool = record { max_idle = 10; max_open = 100; lifetime = an_hour }

module _ (e : Env) (a : Amqp) (k : Redis) (crypto : Crypto)
    (jwt_parse : (Bool → Result Text) → Text → Result JwtToken) where
  -- The requests that gin hands to the handlers, one after the other.
  unfoldable pub serve_all : List (Entry × Request) → World e.services → World e.services
  serve_all [] w = w
  serve_all ((x, r) ∷ rest) w =
      serve_all rest (serve e jwt_parse (api_dependencies e crypto) x r w).0

  -- What stands outside: the database, what is new in the call for the token of the administrator, the
  -- requests, the connections meanwhile, and the error with which ListenAndServe ends before a signal.
  pub record ApiRun : Type 0 where
    pub gorm : Gorm
    pub fresh : Fresh
    pub requests : List (Entry × Request)
    pub meanwhile : Meanwhile a k
    pub listen_error : Option Text

  unfoldable pub api_main : ApiRun → Machine e a k → Machine e a k × Exit
  api_main r m = elim (init_database r.gorm e.config api_pool) [
    | err cause ↦ (m, fatal database cause)
    | ok pool ↦
        let w = start_api e crypto r.fresh m.world in
        let (redis, keydb_service) = new_keydb_service k e.config m.redis in
        let with_keydb = record m { world = w; redis = redis } in
        elim keydb_service [
          | err cause ↦ (with_keydb, fatal keydb cause)
          | ok client ↦
              let (amqp, queue) = new_queue_service a e.config m.amqp in
              elim queue [
                | err cause ↦ (record with_keydb { amqp = amqp }, fatal rabbitmq cause)
                | ok queue_service ↦
                    let served = serve_all r.requests w in
                    let amqp' = r.meanwhile.amqp amqp in
                    let redis' = r.meanwhile.redis redis in
                    elim r.listen_error [
                      | some cause ↦ (
                        record { world = served; amqp = amqp'; redis = redis' },
                        fatal serving cause,
                      )
                      | none ↦ (
                        record {
                          world = served;
                          amqp = (close_queue_service a queue_service amqp').0;
                          redis = close_keydb_service k client redis';
                        },
                        finished,
                      )
                    ]
              ]
        ]
  ]
