-- ===== src/Tests/Fixture/Held.antt =====
-- Services held in functions.
use mathlib.Core.Option
use email_proxy.Prelude.{
  ℕ, ◌+◌, map, ◌≡◌, refl, List, [], ◌∷◌, ◌++◌, true, Option, none, some, arith, ◌&&◌, if◌then◌else◌,
}
use email_proxy.Prelude.Results.{Result, ok, err}
use email_proxy.Text.{Text, text, text_eq}
use email_proxy.Text.Laws.{text_eq_iff}
use email_proxy.Models.{
  Mail, apply_update, EmailSenderConfig, ClientToken, is_named, revoked_if_named,
}
use email_proxy.Services.{Services, IsReliable, Reply, found, missing}

pub record Tables : Type 0 where
  pub mails : Text → Option Mail
  pub configs : List EmailSenderConfig
  pub tokens : List ClientToken

abbrev pub or_missing {ℓ} : {A : Type ℓ} → Option A → Result A
or_missing none = err (text "record not found")
or_missing (some a) = ok a

pub or_missing-ok {ℓ} : {A : Type ℓ} (o : Option A) (a : A) → or_missing o ≡ ok a → o ≡ some a
or_missing-ok none a h = cc
or_missing-ok (some b) a h = ground arith

pub ok-injective {ℓ} : {A : Type ℓ} {a b : A} → ok a ≡ ok b → a ≡ b
ok-injective h = ground arith

abbrev find_config : Text → List EmailSenderConfig → Option EmailSenderConfig
find_config id [] = none
find_config id (c ∷ cs) = if text_eq c.id id then some c else find_config id cs

pub find_config-eq :
    (i : Text) (cs : List EmailSenderConfig) (c : EmailSenderConfig)
    → or_missing (find_config i cs) ≡ ok c
    → (find_config i cs ≡ some c) × (c.id ≡ i)
find_config-eq i [] c h = cc
find_config-eq i (d ∷ cs) c h = ground (arith, text_eq_iff d.id i, find_config-eq i cs c)

abbrev find_active : Text → List EmailSenderConfig → Option EmailSenderConfig
find_active a [] = none
find_active a (c ∷ cs) =
    if text_eq c.sender_email a && c.is_active then some c else find_active a cs

abbrev owned_by : Text → List EmailSenderConfig → List EmailSenderConfig
owned_by t [] = []
owned_by t (c ∷ cs) =
    let rest = owned_by t cs in if text_eq c.client_token_id t then c ∷ rest else rest

abbrev without : Text → List EmailSenderConfig → List EmailSenderConfig
without i [] = []
without i (c ∷ cs) = let rest = without i cs in if text_eq c.id i then rest else c ∷ rest

abbrev find_sender : Text → Text → List EmailSenderConfig → Option EmailSenderConfig
find_sender t a [] = none
find_sender t a (c ∷ cs) =
    if text_eq c.client_token_id t && text_eq c.sender_email a && c.is_active
    then some c
    else find_sender t a cs

abbrev find_token : Text → List ClientToken → Option ClientToken
find_token c [] = none
find_token c (t ∷ ts) = if text_eq t.client_id c then some t else find_token c ts

abbrev keep_active : Option ClientToken → Option ClientToken
keep_active none = none
keep_active (some t) = if t.is_active then some t else none

abbrev find_named : Text → Option Text → List ClientToken → Option ClientToken
find_named name id [] = none
find_named name id (t ∷ ts) = if is_named name id t then some t else find_named name id ts

abbrev count_named : Text → Option Text → List ClientToken → ℕ
count_named name id [] = 0
count_named name id (t ∷ ts) =
    let rest = count_named name id ts in if is_named name id t then rest + 1 else rest

pub find_token-client :
    (c : Text) (ts : List ClientToken) (t : ClientToken)
    → find_token c ts ≡ some t
    → t.client_id ≡ c
find_token-client c [] t h = cc
find_token-client c (u ∷ ts) t h =
    ground (arith, text_eq_iff u.client_id c, find_token-client c ts t)

pub keep_active-eq :
    (o : Option ClientToken) (t : ClientToken)
    → or_missing (keep_active o) ≡ ok t
    → (o ≡ some t) × (t.is_active ≡ true)
keep_active-eq none t h = cc
keep_active-eq (some u) t h = ground arith

pub find_token-active :
    (c : Text) (ts : List ClientToken) (t : ClientToken)
    → or_missing (keep_active (find_token c ts)) ≡ ok t
    → (t.client_id ≡ c) × (t.is_active ≡ true)
find_token-active c ts t h =
    let (found_is, active) = keep_active-eq (find_token c ts) t h in
    (find_token-client c ts t found_is, active)

pub find_token-map :
    (name : Text) (id : Option Text) (now : ℕ) (c : Text) (ts : List ClientToken)
    → find_token c (map (revoked_if_named name id now) ts)
      ≡ Option.map (revoked_if_named name id now) (find_token c ts)
find_token-map name id now c [] = refl
find_token-map name id now c (t ∷ ts) = ground (arith, find_token-map name id now c ts)

-- The row if it is the client's.
abbrev keep_client : Text → Text → Option Mail → Option Mail
keep_client i c none = none
keep_client i c (some m) = if text_eq m.client_id c && text_eq m.id i then some m else none

pub keep_client-eq :
    (i c : Text) (mails : Text → Option Mail) (m : Mail)
    → or_missing (keep_client i c (mails i)) ≡ ok m
    → (mails m.id ≡ some m) × (m.client_id ≡ c)
keep_client-eq i c mails m h = ground (arith, text_eq_iff m.client_id c, text_eq_iff m.id i)

pub find_sender-eq :
    (t a : Text) (cs : List EmailSenderConfig) (c : EmailSenderConfig)
    → or_missing (find_sender t a cs) ≡ ok c
    → (c.client_token_id ≡ t) × (c.sender_email ≡ a) × (c.is_active ≡ true)
find_sender-eq t a [] c h = cc
find_sender-eq t a (d ∷ cs) c h =
    ground (
      arith,
      text_eq_iff d.client_token_id t,
      text_eq_iff d.sender_email a,
      find_sender-eq t a cs c,
    )

abbrev reply : Option Text → Reply
reply none = missing
reply (some v) = found v

abbrev pub services : Services
services = record {
  Db = Tables;
  row = λ i d. d.mails i;
  first_mail = λ i d. or_missing (d.mails i);
  create_mail =
      λ m d. (record d { mails = λ i. if text_eq m.id i then some m else d.mails i }, none);
  update_mail = λ j u d. (
    record d {
      mails = λ i. if text_eq j i then Option.map (apply_update u) (d.mails i) else d.mails i;
    },
    none,
  );
  first_config = λ i d. or_missing (find_config i d.configs);
  first-row = λ i d m h. or_missing-ok (d.mails i) m h;
  row-create = λ m d i. refl;
  row-update = λ j u d i. refl;
  first_sender = λ t a d. or_missing (find_sender t a d.configs);
  first_mail_of = λ i c d. or_missing (keep_client i c (d.mails i));
  first_active_token = λ i d. or_missing (keep_active (find_token i d.tokens));
  first_mail_of-row = λ i c d m h. keep_client-eq i c d.mails m h;
  first_sender-active = λ t a d c h. find_sender-eq t a d.configs c h;
  first_active_token-active = λ i d t h. find_token-active i d.tokens t h;
  config_row = λ i d. find_config i d.configs;
  first_active_sender = λ a d. or_missing (find_active a d.configs);
  configs_of = λ t d. ok (owned_by t d.configs);
  create_config = λ c d. (record d { configs = c ∷ d.configs }, none);
  save_config = λ c d. (record d { configs = c ∷ d.configs }, none);
  delete_config = λ i d. (record d { configs = without i d.configs }, (1, none));
  first_config-row = λ i d c h. find_config-eq i d.configs c h;
  config_row-create = λ c d i h. refl;
  config_row-save = λ c d i h. refl;
  token_row = λ c d. find_token c d.tokens;
  first_token = λ c d. ok (find_token c d.tokens);
  first_named_token = λ name id d. or_missing (find_named name id d.tokens);
  all_tokens = λ d. d.tokens;
  create_token = λ t d. (record d { tokens = t ∷ d.tokens }, none);
  save_token = λ t d. (record d { tokens = t ∷ d.tokens }, none);
  revoke_tokens = λ name id now d. (
    record d { tokens = map (revoked_if_named name id now) d.tokens },
    count_named name id d.tokens,
  );
  token_row-client = λ c d t h. find_token-client c d.tokens t h;
  first_active_token-row = λ c d t h. (keep_active-eq (find_token c d.tokens) t h).0;
  first_token-row = λ c d o h. ok-injective h;
  token_row-create = λ t d c h. refl;
  token_row-save = λ t old d c h same k. refl;
  token_row-revoke = λ name id now d c h. find_token-map name id now c d.tokens;
  count_mails = λ c status d. 0;
  mails_of = λ c status offset limit d. [];
  ping_db = λ d. true;
  Cache = Text → Option Text;
  ping_cache = λ c. true;
  value = λ k c. c k;
  redis_set = λ k v ttl c. (λ j. if text_eq k j then some v else c j, none);
  redis_get = λ k c. reply (c k);
  value-set = λ k v ttl c j. refl;
  Broker = Text → List Text;
  waiting = λ q b. b q;
  publish = λ p b. (λ q. if text_eq p.routing_key q then b q ++ p.body ∷ [] else b q, none);
  waiting-publish = λ p b q. refl;
  Files = Text → Option Text;
  content = λ q f. f q;
  mkdir_all = λ p f. (f, none);
  write_file = λ p v f. (λ q. if text_eq p q then some v else f q, none);
  read_file = λ p f. or_missing (f p);
  content-mkdir = λ p f q. refl;
  content-write = λ p v f q h. refl;
}

pub services_reliable : IsReliable services
services_reliable = record {
  reads = λ i d m h. rw h;
  reads_config = λ i d c h. rw h;
  finds_token = λ c d t h active. rw (h, active) refl;
  gets = λ k c v h. rw h;
  creates = λ m d. refl;
  updates = λ i u d. refl;
  caches = λ k v t c. refl;
  publishes = λ p b. refl;
  makes = λ p f. refl;
  writes = λ p v f. refl;
}
