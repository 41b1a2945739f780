-- ===== src/Keydb/Connect.antt =====
-- internal/services/keydb_service.go `NewKeyDBService` and `Close`. The client of KeyDB, go-redis, is a
-- parameter; clients are numbers.
use email_proxy.Prelude.{
  ℕ, ◌≡◌, ◌⊎◌, Bool, true, false, ◌++◌, Option, none, some, Option-cases, refl, inl, inr,
}
use email_proxy.Prelude.Results.{Result, ok, err}
use email_proxy.Text.{Text, text}
use email_proxy.Config.{Config}

-- Only NewClient opens a client, and Close closes it.
pub record Redis : Type 1 where
  pub State : Type 0
  -- an address and a password
  pub new_client : Text → Text → State → State × ℕ
  pub ping : ℕ → State → Option Text
  pub close : ℕ → State → State × Option Text
  pub is_open : ℕ → State → Bool
  pub new_client-opens :
      (url password : Text) (s : State) (c : ℕ)
      → is_open c (new_client url password s).0 ≡ true
      → (is_open c s ≡ true) ⊎ ((new_client url password s).1 ≡ c)
  pub close-closes : (n : ℕ) (s : State) → is_open n (close n s).0 ≡ false
  pub close-opens :
      (n : ℕ) (s : State) (c : ℕ) → is_open c (close n s).0 ≡ true → is_open c s ≡ true

module _ (k : Redis) where
  -- A client that does not answer is not closed.
  unfoldable pub new_keydb_service : Config → k.State → k.State × Result ℕ
  new_keydb_service cfg s =
      let (s', client) = k.new_client cfg.keydb_url cfg.keydb_password s in
      elim (k.ping client s') [
        | some cause ↦ (s', err (text "failed to connect to KeyDB: " ++ cause))
        | none ↦ (s', ok client)
      ]

  unfoldable pub close_keydb_service : ℕ → k.State → k.State
  close_keydb_service client s = (k.close client s).0

  -- Every client that is open in the second state was open in the first.
  abbrev pub OpensNothing : k.State → k.State → Type 0
  OpensNothing s t = (c : ℕ) → k.is_open c t ≡ true → k.is_open c s ≡ true

  new_keydb_service-made :
      (cfg : Config) (s : k.State)
      → let made = k.new_client cfg.keydb_url cfg.keydb_password s in
        ((new_keydb_service cfg s).0 ≡ made.0)
        × ((client : ℕ) → (new_keydb_service cfg s).1 ≡ ok client → made.1 ≡ client)
  unfolding new_keydb_service
  new_keydb_service-made cfg s =
      let made = k.new_client cfg.keydb_url cfg.keydb_password s in
      elim (Option-cases (k.ping made.1 made.0)) [
        | inl answers ↦ rw (answers, new_keydb_service) (refl, λ client h. cc)
        | inr (cause, silent) ↦ rw (silent, new_keydb_service) (refl, λ client h. absurd (cc))
      ]

  -- Close leaves no client open that was not open before NewKeyDBService.
  pub close_keydb_service-new :
      (cfg : Config) (s t : k.State) (client : ℕ)
      → (new_keydb_service cfg s).1 ≡ ok client
      → OpensNothing (new_keydb_service cfg s).0 t
      → OpensNothing s (close_keydb_service client t)
  unfolding new_keydb_service close_keydb_service
  close_keydb_service-new cfg s t client fine later c open_c =
      let (same, names) = new_keydb_service-made cfg s in
      let before = later c (k.close-opens client t c open_c) in
      elim (k.new_client-opens cfg.keydb_url cfg.keydb_password s c (rw same at before)) [
        | inl was_open ↦ was_open
        | inr is_new ↦ absurd (cc (k.close-closes client t, names client fine))
      ]
