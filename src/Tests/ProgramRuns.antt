-- ===== src/Tests/ProgramRuns.antt =====
-- The programs from their start to a signal, with clients that hold which connections are open.
use email_proxy.Prelude.{
  ℕ, ◌≡◌, ◌⊎◌, refl, Bool, true, false, [], ◌∷◌, none, if◌then◌else◌, ◌==◌, arith,
}
use email_proxy.Prelude.Results.{Result, ok}
use email_proxy.Tokens.{Crypto}
use email_proxy.Amqp.{Amqp, OpensAtMost}
use email_proxy.Keydb.Connect.{Redis, OpensNothing, new_keydb_service}
use email_proxy.Queue.Connect.{when}
use email_proxy.Worker.Start.{
  new_consumer, dialling, consumer_of, failure_of, Schedule, start_step, start_steps,
  stop_consuming, cleanup, until_signal, until_cleanup, until_exit,
}
use email_proxy.Programs.{Machine, finished, Gorm, init_database, Meanwhile}
use email_proxy.Programs.Api.{ApiRun}
use email_proxy.Programs.Worker.{WorkerRun, consumer_main, worker_main}
use email_proxy.Programs.Closes.{IsQuiet}
use email_proxy.Programs.WorkerCloses.{worker_main_closes}
use email_proxy.Tests.Fixture.{env, no_mails}
use email_proxy.Tests.RouteRuns.{create_entry, request, no_token, deps, fresh}

-- Number `n` is opened.
abbrev opened : ℕ → (ℕ → Bool) → ℕ → Bool
opened n s c = if c == n then true else s c

abbrev closed : ℕ → (ℕ → Bool) → ℕ → Bool
closed n s c = if c == n then false else s c

opened_one : (n : ℕ) (s : ℕ → Bool) (c : ℕ) → opened n s c ≡ true → (s c ≡ true) ⊎ (n ≡ c)
opened_one n s c h = ground arith

closed_one : (n : ℕ) (s : ℕ → Bool) → closed n s n ≡ false
closed_one n s = ground arith

closed_others : (n : ℕ) (s : ℕ → Bool) (c : ℕ) → closed n s c ≡ true → s c ≡ true
closed_others n s c h = ground arith

dialled_one :
    (n : ℕ) (s : ℕ → Bool) (c : ℕ)
    → opened n s c ≡ true
    → (s c ≡ true) ⊎ (◌≡◌ {A = Result ℕ} (ok n) (ok c))
dialled_one n s c h = ground arith

abbrev amqp : Amqp
amqp = record {
  State = ℕ → Bool;
  dial = λ url s. (opened 1 s, ok 1);
  open_channel = λ n s. (s, ok 2);
  declare = λ n d s. (s, none);
  qos = λ n k s. (s, none);
  consume = λ n queue tag s. (s, ok 3);
  cancel = λ n tag s. (s, none);
  close_channel = λ n s. (s, none);
  close = λ n s. (closed n s, none);
  is_open = λ c s. s c;
  dial-opens = λ url s c h. dialled_one 1 s c h;
  close-closes = closed_one;
  close-opens = closed_others;
  open_channel-opens = λ n s c h. h;
  declare-opens = λ n d s c h. h;
  qos-opens = λ n k s c h. h;
  consume-opens = λ n queue tag s c h. h;
  cancel-opens = λ n tag s c h. h;
  close_channel-opens = λ n s c h. h;
}

abbrev redis : Redis
redis = record {
  State = ℕ → Bool;
  new_client = λ url password s. (opened 4 s, 4);
  ping = λ n s. none;
  close = λ n s. (closed n s, none);
  is_open = λ c s. s c;
  new_client-opens = λ url password s c h. opened_one 4 s c h;
  close-closes = closed_one;
  close-opens = closed_others;
}

abbrev gorm : Gorm
gorm = record { connect = λ silent url. none; handle = none; auto_migrate = none }

abbrev meanwhile : Meanwhile amqp redis
meanwhile = record { amqp = λ s. s; redis = λ s. s }

meanwhile-IsQuiet : IsQuiet meanwhile
meanwhile-IsQuiet = record { amqp_quiet = λ s c h. h; redis_quiet = λ s c h. h }

abbrev machine : Machine env amqp redis
machine = record { world = no_mails; amqp = λ c. false; redis = λ c. false }

abbrev crypto : Crypto
crypto = deps.crypto

abbrev api_run : ApiRun env amqp redis crypto no_token
api_run = record {
  gorm = gorm;
  fresh = fresh;
  requests = (create_entry, request) ∷ [];
  meanwhile = meanwhile;
  listen_error = none;
}

-- Start is at its fourth call when the signal comes.
abbrev worker_run : WorkerRun env amqp redis
worker_run = record {
  gorm = gorm;
  schedule = record { before_signal = 3; during_wait = 2; after_cleanup = 1 };
  working = λ w. w;
  meanwhile = meanwhile;
}

worker_returns : (worker_main env amqp redis worker_run machine).1 ≡ finished
unfolding worker_main consumer_main init_database new_keydb_service failure_of until_signal
    until_cleanup until_exit start_steps start_step
worker_returns = refl

worker_main_closes_example :
    let end = (worker_main env amqp redis worker_run machine).0 in
    let schedule = worker_run.schedule in
    (end.world ≡ no_mails)
    × OpensNothing redis machine.redis end.redis
    × (OpensAtMost amqp none machine.amqp end.amqp
        ⊎ (((until_cleanup amqp env.config schedule meanwhile.amqp machine.amqp).0 ≡ dialling)
            × OpensAtMost amqp
                (consumer_of
                  (until_exit amqp env.config schedule meanwhile.amqp machine.amqp).0).conn
                machine.amqp
                end.amqp))
worker_main_closes_example =
    worker_main_closes env amqp redis machine worker_run meanwhile-IsQuiet worker_returns

-- A signal before Start has its connection: it is open when the process ends.
abbrev early : Schedule
early = record { before_signal = 0; during_wait = 0; after_cleanup = 1 }

early_leaves_one : (until_exit amqp env.config early meanwhile.amqp machine.amqp).1 1 ≡ true
unfolding until_signal until_cleanup until_exit start_steps start_step stop_consuming cleanup when
    consumer_of new_consumer
early_leaves_one = refl
