-- ===== src/Amqp.antt =====
-- The client of RabbitMQ, amqp091-go, which is a parameter. Connections, channels and channels of
-- deliveries are numbers. The laws say that only Dial opens a connection, and that Close closes it.
use email_proxy.Prelude.{
  ℕ, ◌≡◌, ◌⊎◌, inl, inr, Bool, true, false, List, [], ◌∷◌, Option, none, some, Option-cases,
}
use email_proxy.Prelude.Results.{Result, ok, err}
use email_proxy.Text.{Text}
use email_proxy.Config.{Config}
use email_proxy.Queue.Topology.{Declaration, declarations, declare_all, declare_queues}

pub record Amqp : Type 1 where
  pub State : Type 0
  pub dial : Text → State → State × Result ℕ
  pub open_channel : ℕ → State → State × Result ℕ
  pub declare : ℕ → Declaration → State → State × Option Text
  -- the prefetch count
  pub qos : ℕ → ℕ → State → State × Option Text
  -- a queue and the tag of the consumer, without automatic acknowledgement
  pub consume : ℕ → Text → Text → State → State × Result ℕ
  pub cancel : ℕ → Text → State → State × Option Text
  pub close_channel : ℕ → State → State × Option Text
  pub close : ℕ → State → State × Option Text
  -- whether a connection is open
  pub is_open : ℕ → State → Bool
  pub dial-opens :
      (url : Text) (s : State) (c : ℕ)
      → is_open c (dial url s).0 ≡ true
      → (is_open c s ≡ true) ⊎ ((dial url s).1 ≡ ok c)
  pub close-closes : (n : ℕ) (s : State) → is_open n (close n s).0 ≡ false
  pub close-opens :
      (n : ℕ) (s : State) (c : ℕ) → is_open c (close n s).0 ≡ true → is_open c s ≡ true
  pub open_channel-opens :
      (n : ℕ) (s : State) (c : ℕ) → is_open c (open_channel n s).0 ≡ true → is_open c s ≡ true
  pub declare-opens :
      (n : ℕ) (d : Declaration) (s : State) (c : ℕ)
      → is_open c (declare n d s).0 ≡ true
      → is_open c s ≡ true
  pub qos-opens :
      (n k : ℕ) (s : State) (c : ℕ) → is_open c (qos n k s).0 ≡ true → is_open c s ≡ true
  pub consume-opens :
      (n : ℕ) (queue tag : Text) (s : State) (c : ℕ)
      → is_open c (consume n queue tag s).0 ≡ true
      → is_open c s ≡ true
  pub cancel-opens :
      (n : ℕ) (tag : Text) (s : State) (c : ℕ)
      → is_open c (cancel n tag s).0 ≡ true
      → is_open c s ≡ true
  pub close_channel-opens :
      (n : ℕ) (s : State) (c : ℕ) → is_open c (close_channel n s).0 ≡ true → is_open c s ≡ true

module _ (a : Amqp) where
  -- Every connection that is open in the second state was open in the first, but perhaps one.
  abbrev pub OpensAtMost : Option ℕ → a.State → a.State → Type 0
  OpensAtMost none s t = (c : ℕ) → a.is_open c t ≡ true → a.is_open c s ≡ true
  OpensAtMost (some n) s t = (c : ℕ) → a.is_open c t ≡ true → (a.is_open c s ≡ true) ⊎ (n ≡ c)

  -- What follows a dial, and opens nothing, opens at most the connection of the dial.
  pub OpensAtMost-then :
      (o : Option ℕ) (s t u : a.State)
      → OpensAtMost o s t
      → OpensAtMost none t u
      → OpensAtMost o s u
  OpensAtMost-then none s t u h k = λ c open_c. h c (k c open_c)
  OpensAtMost-then (some n) s t u h k = λ c open_c. h c (k c open_c)

  -- Closing the connection of a dial leaves nothing open that was not.
  pub close-OpensAtMost :
      (n : ℕ) (s t : a.State) → OpensAtMost (some n) s t → OpensAtMost none s (a.close n t).0
  close-OpensAtMost n s t h c open_c = elim (h c (a.close-opens n t c open_c)) [
    | inl before ↦ before
    | inr same ↦ cc (a.close-closes n t, same)
  ]

  pub declare_all-OpensAtMost :
      (n : ℕ) (ds : List (Declaration × Text)) (s : a.State)
      → OpensAtMost none s (declare_all (a.declare n) ds s).0
  unfolding declare_all
  declare_all-OpensAtMost n [] s c h = h
  declare_all-OpensAtMost n ((d, message) ∷ rest) s c h = elim (Option-cases (a.declare n d s).1) [
    | inl fine ↦
        a.declare-opens n d s c
          (declare_all-OpensAtMost n rest (a.declare n d s).0 c (rw (fine, declare_all) at h))
    | inr (cause, bad) ↦ a.declare-opens n d s c (rw (bad, declare_all) at h)
  ]

  pub declare_queues-OpensAtMost :
      (n : ℕ) (cfg : Config) (s : a.State)
      → OpensAtMost none s (declare_queues (a.declare n) cfg s).0
  unfolding declare_queues
  declare_queues-OpensAtMost n cfg s = declare_all-OpensAtMost n (declarations cfg) s

  pub dial-OpensAtMost :
      (url : Text) (s : a.State) (n : ℕ)
      → (a.dial url s).1 ≡ ok n
      → OpensAtMost (some n) s (a.dial url s).0
  dial-OpensAtMost url s n dialled c h = elim (a.dial-opens url s c h) [
    | inl before ↦ inl before
    | inr this ↦ inr (cc)
  ]

  pub dial_failed :
      (url : Text) (s : a.State) (cause : Text)
      → (a.dial url s).1 ≡ err cause
      → OpensAtMost none s (a.dial url s).0
  dial_failed url s cause bad c h = elim (a.dial-opens url s c h) [
    | inl before ↦ before
    | inr this ↦ absurd (cc)
  ]
