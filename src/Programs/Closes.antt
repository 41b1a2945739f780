-- ===== src/Programs/Closes.antt =====
-- Which connections the programs leave open.
use email_proxy.Prelude.{◌≡◌, ◌≢◌, ◌⊎◌, refl, Bool, none, inl, inr, Option-cases}
use email_proxy.Prelude.Results.{Result, Result-cases}
use email_proxy.Text.{Text}
use email_proxy.Services.{Env, World}
use email_proxy.Amqp.{Amqp, OpensAtMost}
use email_proxy.Keydb.Connect.{Redis, new_keydb_service, OpensNothing, close_keydb_service-new}
use email_proxy.Queue.Connect.{new_queue_service}
use email_proxy.Queue.Connect.Laws.{close_queue_service-new}
use email_proxy.Tokens.{Crypto}
use email_proxy.Senders.Process.{start_api}
use email_proxy.Api.Auth.{JwtToken}
use email_proxy.Programs.{Machine, Exit, Task, serving, fatal, finished, init_database, Meanwhile}
use email_proxy.Programs.Api.{ApiRun, api_pool, api_main, serve_all}

-- Nothing that happens while a program serves opens a connection.
pub record IsQuiet {a : Amqp} {k : Redis} (m : Meanwhile a k) : Type 0 where
  pub amqp_quiet : (s : a.State) → OpensAtMost a none s (m.amqp s)
  pub redis_quiet : (s : k.State) → OpensNothing k s (m.redis s)

module _ (e : Env) (a : Amqp) (k : Redis) (m : Machine e a k) where
  -- A program that returned has served, and left no connection and no client open that it opened. One
  -- that could not start has served nothing.
  record ClosesAll (started served : World e.services) (end : Machine e a k × Exit) : Type 0 where
    has_served : end.1 ≡ finished → end.0.world ≡ served
    closes_amqp : end.1 ≡ finished → OpensAtMost a none m.amqp end.0.amqp
    closes_redis : end.1 ≡ finished → OpensNothing k m.redis end.0.redis
    serves_nothing :
        (task : Task) (cause : Text)
        → end.1 ≡ fatal task cause
        → task ≢ serving
        → (end.0.world ≡ m.world) ⊎ (end.0.world ≡ started)

  ends_early :
      (started served : World e.services) (m' : Machine e a k) (task : Task) (cause : Text)
      → (m'.world ≡ m.world) ⊎ (m'.world ≡ started)
      → ClosesAll started served (m', fatal task cause)
  ends_early started served m' task cause h = record {
    has_served = λ h. absurd (cc);
    closes_amqp = λ h. absurd (cc);
    closes_redis = λ h. absurd (cc);
    serves_nothing = λ t c is_fatal other. h;
  }

  ends_serving :
      (started served : World e.services) (m' : Machine e a k) (cause : Text)
      → ClosesAll started served (m', fatal serving cause)
  ends_serving started served m' cause = record {
    has_served = λ h. absurd (cc);
    closes_amqp = λ h. absurd (cc);
    closes_redis = λ h. absurd (cc);
    serves_nothing = λ t c is_fatal other. absurd (other (cc));
  }

  module _ (crypto : Crypto) (jwt_parse : (Bool → Result Text) → Text → Result JwtToken)
      (r : ApiRun e a k crypto jwt_parse) where
    abbrev pub started : World e.services
    started = start_api e crypto r.fresh m.world

    abbrev pub served : World e.services
    served = serve_all e a k crypto jwt_parse r.requests started

  api_main-ClosesAll :
      (crypto : Crypto) (jwt_parse : (Bool → Result Text) → Text → Result JwtToken)
      (r : ApiRun e a k crypto jwt_parse)
      → IsQuiet r.meanwhile
      → ClosesAll
          (started crypto jwt_parse r)
          (served crypto jwt_parse r)
          (api_main e a k crypto jwt_parse r m)
  unfolding api_main
  api_main-ClosesAll crypto jwt_parse r quiet =
      elim (Result-cases (init_database r.gorm e.config api_pool)) [
        | inr (cause, bad) ↦ rw (bad, api_main) (ends_early _ _ _ _ cause (inl refl))
        | inl (pool, fine) ↦ elim (Result-cases (new_keydb_service k e.config m.redis).1) [
          | inr (cause, bad) ↦ rw (fine, bad, api_main) (ends_early _ _ _ _ cause (inr refl))
          | inl (client, made) ↦ elim (Result-cases (new_queue_service a e.config m.amqp).1) [
            | inr (cause, bad) ↦
                rw (fine, made, bad, api_main) (ends_early _ _ _ _ cause (inr refl))
            | inl (q, connected) ↦ elim (Option-cases r.listen_error) [
              | inr (cause, bad) ↦
                  rw (fine, made, connected, bad, api_main) (ends_serving _ _ _ cause)
              | inl none_failed ↦
                  rw (fine, made, connected, none_failed, api_main)
                    (record {
                      has_served = λ h. refl;
                      closes_amqp = λ h.
                          close_queue_service-new a e.config m.amqp _ q connected
                            (quiet.amqp_quiet _);
                      closes_redis = λ h.
                          close_keydb_service-new k e.config m.redis _ client made
                            (quiet.redis_quiet _);
                      serves_nothing = λ t c is_fatal other. absurd (cc);
                    })
            ]
          ]
        ]
      ]

  -- An API that could not reach the database, KeyDB or RabbitMQ has handled no request: it has at most
  -- initialized the token of the administrator.
  pub api_main_serves_nothing :
      (crypto : Crypto) (jwt_parse : (Bool → Result Text) → Text → Result JwtToken)
      (r : ApiRun e a k crypto jwt_parse) (task : Task) (cause : Text)
      → IsQuiet r.meanwhile
      → (api_main e a k crypto jwt_parse r m).1 ≡ fatal task cause
      → task ≢ serving
      → let end = (api_main e a k crypto jwt_parse r m).0 in
        (end.world ≡ m.world) ⊎ (end.world ≡ start_api e crypto r.fresh m.world)
  api_main_serves_nothing crypto jwt_parse r task cause quiet failed other =
      (api_main-ClosesAll crypto jwt_parse r quiet).serves_nothing task cause failed other
