-- ===== src/Services.antt =====
-- The services that the program calls and does not implement: PostgreSQL behind gorm, KeyDB,
-- RabbitMQ, the UUID package and the JSON encoding. They are parameters of the model. What a
-- service holds is read by a view (`row`, `value`, `waiting`), and the laws say what a call that
-- returned no error did to it.
use mathlib.Core.Option
use email_proxy.Prelude.{
  ℕ, ◌≡◌, ◌≢◌, Bool, true, List, [], ◌∷◌, ◌++◌, Option, none, some, if◌then◌else◌,
}
use email_proxy.Prelude.Results.{Result, ok, is_none}
use email_proxy.Text.{Text, text_eq}
use email_proxy.Config.{Config}
use email_proxy.Models.{
  Mail, MailJob, MailStatusCache, MailUpdate, apply_update, EmailSenderConfig, ClientToken,
  revoked_if_named,
}

-- The reply of KeyDB to GET; `missing` is redis.Nil.
pub data Reply : Type 0 where
  found : Text → Reply
  missing : Reply
  unavailable : Text → Reply

-- The arguments of PublishWithContext on the default exchange.
pub record Publishing : Type 0 where
  pub routing_key : Text
  pub persistent : Bool
  pub content_type : Text
  pub headers : List (Text × ℕ)
  pub body : Text

pub record Services : Type 1 where
  -- PostgreSQL: the row of a mail, and what the queries return
  pub Db : Type 0
  pub row : Text → Db → Option Mail
  pub first_mail : Text → Db → Result Mail
  pub create_mail : Mail → Db → Db × Option Text
  pub update_mail : Text → MailUpdate → Db → Db × Option Text
  pub first_config : Text → Db → Result EmailSenderConfig
  pub first-row : (i : Text) (d : Db) (m : Mail) → first_mail i d ≡ ok m → row i d ≡ some m
  pub row-create :
      (m : Mail) (d : Db) (i : Text)
      → row i (create_mail m d).0 ≡ (
          if is_none (create_mail m d).1
          then (if text_eq m.id i then some m else row i d)
          else row i d)
  pub row-update :
      (j : Text) (u : MailUpdate) (d : Db) (i : Text)
      → row i (update_mail j u d).0 ≡ (
          if is_none (update_mail j u d).1
          then (if text_eq j i then Option.map (apply_update u) (row i d) else row i d)
          else row i d)
  -- the configuration of a sender of a client, the mail of a client, and the token of a client
  pub first_sender : Text → Text → Db → Result EmailSenderConfig
  pub first_mail_of : Text → Text → Db → Result Mail
  pub first_active_token : Text → Db → Result ClientToken
  pub first_mail_of-row :
      (i c : Text) (d : Db) (m : Mail)
      → first_mail_of i c d ≡ ok m
      → (row m.id d ≡ some m) × (m.client_id ≡ c)
  pub first_sender-active :
      (t a : Text) (d : Db) (c : EmailSenderConfig)
      → first_sender t a d ≡ ok c
      → (c.client_token_id ≡ t) × (c.sender_email ≡ a) × (c.is_active ≡ true)
  pub first_active_token-active :
      (i : Text) (d : Db) (t : ClientToken)
      → first_active_token i d ≡ ok t
      → (t.client_id ≡ i) × (t.is_active ≡ true)
  -- the rows of the sender configurations, the queries on them, and the writes; a deletion returns
  -- the number of rows too
  pub config_row : Text → Db → Option EmailSenderConfig
  pub first_active_sender : Text → Db → Result EmailSenderConfig
  pub configs_of : Text → Db → Result (List EmailSenderConfig)
  pub create_config : EmailSenderConfig → Db → Db × Option Text
  pub save_config : EmailSenderConfig → Db → Db × Option Text
  pub delete_config : Text → Db → Db × (ℕ × Option Text)
  pub first_config-row :
      (i : Text) (d : Db) (c : EmailSenderConfig)
      → first_config i d ≡ ok c
      → (config_row i d ≡ some c) × (c.id ≡ i)
  pub config_row-create :
      (c : EmailSenderConfig) (d : Db) (i : Text)
      → (create_config c d).1 ≡ none
      → config_row i (create_config c d).0 ≡ (if text_eq c.id i then some c else config_row i d)
  pub config_row-save :
      (c : EmailSenderConfig) (d : Db) (i : Text)
      → (save_config c d).1 ≡ none
      → config_row i (save_config c d).0 ≡ (if text_eq c.id i then some c else config_row i d)
  -- the token of a client, whose id is unique: the rows, the queries and the writes; a query without
  -- a row is `ok none` where the code tells it from a failure
  pub token_row : Text → Db → Option ClientToken
  pub first_token : Text → Db → Result (Option ClientToken)
  pub first_named_token : Text → Option Text → Db → Result ClientToken
  pub all_tokens : Db → List ClientToken
  pub create_token : ClientToken → Db → Db × Option Text
  pub save_token : ClientToken → Db → Db × Option Text
  pub revoke_tokens : Text → Option Text → ℕ → Db → Db × ℕ
  pub token_row-client :
      (c : Text) (d : Db) (t : ClientToken) → token_row c d ≡ some t → t.client_id ≡ c
  pub first_active_token-row :
      (c : Text) (d : Db) (t : ClientToken) → first_active_token c d ≡ ok t → token_row c d ≡ some t
  pub first_token-row :
      (c : Text) (d : Db) (o : Option ClientToken) → first_token c d ≡ ok o → token_row c d ≡ o
  pub token_row-create :
      (t : ClientToken) (d : Db) (c : Text)
      → (create_token t d).1 ≡ none
      → token_row c (create_token t d).0 ≡ (if text_eq t.client_id c then some t else token_row c d)
  pub token_row-save :
      (t old : ClientToken) (d : Db) (c : Text)
      → token_row t.client_id d ≡ some old
      → old.id ≡ t.id
      → (save_token t d).1 ≡ none
      → token_row c (save_token t d).0 ≡ (if text_eq t.client_id c then some t else token_row c d)
  pub token_row-revoke :
      (name : Text) (id : Option Text) (now : ℕ) (d : Db) (c : Text)
      → (revoke_tokens name id now d).1 ≢ 0
      → token_row c (revoke_tokens name id now d).0
        ≡ Option.map (revoked_if_named name id now) (token_row c d)
  -- the mails of a client, all or those of one status: their number, and those behind an offset up to
  -- a limit, both the bit patterns of an int64; and whether the database answers
  pub count_mails : Text → Option Text → Db → ℕ
  pub mails_of : Text → Option Text → ℕ → ℕ → Db → List Mail
  pub ping_db : Db → Bool
  -- KeyDB: whether it answers, SET with a time to live in nanoseconds, and GET
  pub Cache : Type 0
  pub value : Text → Cache → Option Text
  pub ping_cache : Cache → Bool
  pub redis_set : Text → Text → ℕ → Cache → Cache × Option Text
  pub redis_get : Text → Cache → Reply
  pub value-set :
      (k v : Text) (ttl : ℕ) (c : Cache) (j : Text)
      → value j (redis_set k v ttl c).0 ≡ (
          if is_none (redis_set k v ttl c).1
          then (if text_eq k j then some v else value j c)
          else value j c)
  -- RabbitMQ: the bodies that wait in a queue, oldest first
  pub Broker : Type 0
  pub waiting : Text → Broker → List Text
  pub publish : Publishing → Broker → Broker × Option Text
  pub waiting-publish :
      (p : Publishing) (b : Broker) (q : Text)
      → waiting q (publish p b).0 ≡ (
          if is_none (publish p b).1
          then (if text_eq p.routing_key q then waiting q b ++ p.body ∷ [] else waiting q b)
          else waiting q b)
  -- The file system
  pub Files : Type 0
  pub content : Text → Files → Option Text
  pub mkdir_all : Text → Files → Files × Option Text
  pub write_file : Text → Text → Files → Files × Option Text
  pub read_file : Text → Files → Result Text
  pub content-mkdir : (p : Text) (f : Files) (q : Text) → content q (mkdir_all p f).0 ≡ content q f
  pub content-write :
      (p v : Text) (f : Files) (q : Text)
      → (write_file p v f).1 ≡ none
      → content q (write_file p v f).0 ≡ (if text_eq p q then some v else content q f)

-- The state of the services.
pub record World (s : Services) : Type 0 where
  pub db : s.Db
  pub cache : s.Cache
  pub broker : s.Broker
  pub files : s.Files

-- No call fails for a reason of the service's own.
pub record IsReliable (s : Services) : Type 0 where
  pub reads : (i : Text) (d : s.Db) (m : Mail) → s.row i d ≡ some m → s.first_mail i d ≡ ok m
  pub reads_config :
      (i : Text) (d : s.Db) (c : EmailSenderConfig)
      → s.config_row i d ≡ some c
      → s.first_config i d ≡ ok c
  pub finds_token :
      (c : Text) (d : s.Db) (t : ClientToken)
      → s.token_row c d ≡ some t
      → t.is_active ≡ true
      → s.first_active_token c d ≡ ok t
  pub gets : (k : Text) (c : s.Cache) (v : Text) → s.value k c ≡ some v → s.redis_get k c ≡ found v
  pub creates : (m : Mail) (d : s.Db) → (s.create_mail m d).1 ≡ none
  pub updates : (i : Text) (u : MailUpdate) (d : s.Db) → (s.update_mail i u d).1 ≡ none
  pub caches : (k v : Text) (t : ℕ) (c : s.Cache) → (s.redis_set k v t c).1 ≡ none
  pub publishes : (p : Publishing) (b : s.Broker) → (s.publish p b).1 ≡ none
  pub makes : (p : Text) (f : s.Files) → (s.mkdir_all p f).1 ≡ none
  pub writes : (p v : Text) (f : s.Files) → (s.write_file p v f).1 ≡ none

-- Functions of packages: strings.ToLower beyond ASCII, uuid.Parse (whose value is the canonical
-- text), encoding/json on the two types that are stored as JSON, encoding/base64, and AES-256-GCM,
-- whose arguments are the key, the nonce and the text.
pub record Platform : Type 0 where
  pub unicode_lower : Text → Text
  pub parse_uuid : Text → Result Text
  pub marshal_job : MailJob → Text
  pub unmarshal_job : Text → Result MailJob
  pub marshal_status : MailStatusCache → Text
  pub unmarshal_status : Text → Result MailStatusCache
  pub base64_encode : Text → Text
  pub base64_decode : Text → Result Text
  pub gcm_seal : Text → Text → Text → Text
  pub gcm_open : Text → Text → Text → Result Text

-- What every component of the program is built from.
pub record Env : Type 1 where
  pub platform : Platform
  pub services : Services
  pub config : Config
