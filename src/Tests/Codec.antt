-- ===== src/Tests/Codec.antt =====
-- An encoding of every job, in place of its JSON.
use mathlib.Core.Path.{ap}
use email_proxy.Prelude.{ℕ, zero, suc, ◌≡◌, refl, ◌∙◌, List, [], ◌∷◌, map, length}
use email_proxy.Prelude.Results.{ok}
use email_proxy.Text.{Text}
use email_proxy.Models.{MailJob, AttachmentInfo}
use email_proxy.Services.{Platform, Env}
use email_proxy.Tests.Fixture.{platform, env}

-- A value is written in front of a text, and read from there.
pub record Codec (A : Type 0) : Type 0 where
  pub write : A → Text → Text
  pub read : Text → A × Text
  pub law : (a : A) (rest : Text) → read (write a rest) ≡ (a, rest)

abbrev read_number : Text → ℕ × Text
read_number [] = (0, [])
read_number (n ∷ rest) = (n, rest)

abbrev number : Codec ℕ
number = record { write = λ n rest. n ∷ rest; read = read_number; law = λ n rest. refl }

module _ {A : Type 0} {B : Type 0} (a : Codec A) (b : Codec B) where
  abbrev read_pair : Text → (A × B) × Text
  read_pair s = let (x, rest) = a.read s in let (y, rest_1) = b.read rest in ((x, y), rest_1)

  pub read_pair-write :
      (x : A) (y : B) (rest : Text) → read_pair (a.write x (b.write y rest)) ≡ ((x, y), rest)
  read_pair-write x y rest = rw (a.law x (b.write y rest), b.law y rest) refl

  abbrev pub pair : Codec (A × B)
  pair = record {
    write = λ p rest. a.write p.0 (b.write p.1 rest);
    read = read_pair;
    law = λ p rest. read_pair-write p.0 p.1 rest;
  }

module _ {A : Type 0} (a : Codec A) where
  abbrev write_all : List A → Text → Text
  write_all [] rest = rest
  write_all (x ∷ xs) rest = a.write x (write_all xs rest)

  abbrev read_all : ℕ → Text → List A × Text
  read_all zero s = ([], s)
  read_all (suc n) s =
      let (x, rest) = a.read s in let (xs, rest_1) = read_all n rest in (x ∷ xs, rest_1)

  pub read_all-write_all :
      (xs : List A) (rest : Text) → read_all (length xs) (write_all xs rest) ≡ (xs, rest)
  read_all-write_all [] rest = refl
  read_all-write_all (x ∷ xs) rest =
      rw (a.law x (write_all xs rest), read_all-write_all xs rest) refl

  abbrev read_list : Text → List A × Text
  read_list [] = ([], [])
  read_list (n ∷ s) = read_all n s

  abbrev list : Codec (List A)
  list = record {
    write = λ xs rest. length xs ∷ write_all xs rest;
    read = read_list;
    law = read_all-write_all;
  }

abbrev pub texts : Codec (List Text)
texts = list (list number)

abbrev pub string : Codec Text
string = list number

-- The parts of an attachment and of a job.
abbrev attachments : Codec (List ((Text × Text) × (ℕ × Text)))
attachments = list (pair (pair string string) (pair number string))

abbrev Parts : Type 0
Parts =
    ((Text × Text) × (List Text × (List Text × List Text)))
    × (((Text × Text) × Text)
        × ((List ((Text × Text) × (ℕ × Text)) × List (Text × Text)) × (ℕ × Text)))

abbrev parts : Codec Parts
parts = pair (pair (pair string string) (pair texts (pair texts texts))) (
    pair (pair (pair string string) string)
      (pair (pair attachments (list (pair string string))) (pair number string)))

abbrev info_parts : AttachmentInfo → (Text × Text) × (ℕ × Text)
info_parts a = ((a.filename, a.content_type), (a.size_bytes, a.storage_path))

abbrev info_of : (Text × Text) × (ℕ × Text) → AttachmentInfo
info_of p = record {
  filename = p.0.0;
  content_type = p.0.1;
  size_bytes = p.1.0;
  storage_path = p.1.1;
}

infos_back : (as_sent : List AttachmentInfo) → map info_of (map info_parts as_sent) ≡ as_sent
infos_back [] = refl
infos_back (a ∷ rest) = ap (λ r. a ∷ r) (infos_back rest)

abbrev job_parts : MailJob → Parts
job_parts j = (
  ((j.mail_id, j.from_address), (j.to_addresses, (j.cc_addresses, j.bcc_addresses))),
  (
    ((j.subject, j.body), j.html),
    ((map info_parts j.attachments, j.metadata), (j.retry_count, j.sender_config_id)),
  ),
)

abbrev job_of : Parts → MailJob
job_of p = record {
  mail_id = p.0.0.0;
  from_address = p.0.0.1;
  to_addresses = p.0.1.0;
  cc_addresses = p.0.1.1.0;
  bcc_addresses = p.0.1.1.1;
  subject = p.1.0.0.0;
  body = p.1.0.0.1;
  html = p.1.0.1;
  attachments = map info_of p.1.1.0.0;
  metadata = p.1.1.0.1;
  retry_count = p.1.1.1.0;
  sender_config_id = p.1.1.1.1;
}

job_back : (j : MailJob) → job_of (job_parts j) ≡ j
job_back j = ap (λ infos. record j { attachments = infos }) (infos_back j.attachments)

abbrev pub full_platform : Platform
full_platform = record platform {
  marshal_job = λ j. parts.write (job_parts j) [];
  unmarshal_job = λ s. ok (job_of (parts.read s).0);
}

abbrev pub full_env : Env
full_env = record env { platform = full_platform }

pub jobs_back : (j : MailJob) → full_platform.unmarshal_job (full_platform.marshal_job j) ≡ ok j
jobs_back j = ap (λ p. ok (job_of p.0)) (parts.law (job_parts j) []) ∙ ap ok (job_back j)
