-- ===== src/Smtp/Parts.antt =====
-- The loop over the parts of a message: when it ends.
use email_proxy.Prelude.{ℕ, zero, suc, ◌+◌, ◌<◌, ◌≡◌, refl, ap, ◌∙◌, ◌≢◌, none, some, arith}
use email_proxy.Text.{Text}
use email_proxy.Smtp.Mime.{
  NextPart, eof, broken, inline, attached, other, Collected, take_inline, take_attachment,
  read_parts,
}

module _ (now : ℕ) (fresh : ℕ → Text) (next_part : ℕ → NextPart) where
  -- What one call adds.
  abbrev add_part : NextPart → Collected → Collected
  add_part eof c = c
  add_part broken c = c
  add_part (inline content_type content) c = take_inline content_type content c
  add_part (attached p) c = take_attachment now fresh p c
  add_part other c = c

  -- The parts of `k` calls from the n-th on, in order.
  abbrev pub add_parts : ℕ → ℕ → Collected → Collected
  add_parts zero n c = c
  add_parts (suc k) n c = add_parts k (suc n) (add_part (next_part n) c)

  step_of_part :
      (fuel n : ℕ) (c : Collected)
      → next_part n ≢ eof
      → read_parts now fresh next_part (suc fuel) n c
        ≡ read_parts now fresh next_part fuel (suc n) (add_part (next_part n) c)
  unfolding read_parts
  step_of_part fuel n c h = go (next_part n) h
    where
      go :
          (p : NextPart)
          → p ≢ eof
          → (elim p [
            | eof ↦ some c
            | broken ↦ read_parts now fresh next_part fuel (suc n) c
            | inline content_type content ↦
                read_parts now fresh next_part fuel (suc n) (take_inline content_type content c)
            | attached q ↦
                read_parts now fresh next_part fuel (suc n) (take_attachment now fresh q c)
            | other ↦ read_parts now fresh next_part fuel (suc n) c
          ])
            ≡ read_parts now fresh next_part fuel (suc n) (add_part p c)
      go eof h = absurd (h refl)
      go broken h = refl
      go (inline content_type content) h = refl
      go (attached q) h = refl
      go other h = refl

  -- If the library reports the end of the message at the k-th call and not before, the loop ends with
  -- any fuel above k, and has taken the k parts in their order.
  pub read_parts_ends :
      (k fuel n : ℕ) (c : Collected)
      → next_part (n + k) ≡ eof
      → ((i : ℕ) → i < k → next_part (n + i) ≢ eof)
      → k < fuel
      → read_parts now fresh next_part fuel n c ≡ some (add_parts k n c)
  unfolding read_parts
  read_parts_ends k zero n c last before enough = absurd (omega arith)
  read_parts_ends zero (suc fuel) n c last before enough =
      let here : next_part n ≡ eof = ap next_part (omega arith) ∙ last in rw (here, read_parts)
  read_parts_ends (suc k) (suc fuel) n c last before enough =
      let open_here : next_part n ≢ eof =
        λ h. before 0 (omega arith) (ap next_part (omega arith) ∙ h) in
      step_of_part fuel n c open_here
      ∙ read_parts_ends k fuel (suc n) (add_part (next_part n) c)
          (ap next_part (omega arith) ∙ last)
          (λ i below h. before (suc i) (omega arith) (ap next_part (omega arith) ∙ h)) (omega arith)

  -- If the library never reports the end, as when it returns the same error at every call, the loop
  -- does not end: no fuel is enough.
  pub read_parts_hangs :
      ((i : ℕ) → next_part i ≢ eof)
      → (fuel n : ℕ) (c : Collected) → read_parts now fresh next_part fuel n c ≡ none
  unfolding read_parts
  read_parts_hangs never zero n c = refl
  read_parts_hangs never (suc fuel) n c =
      step_of_part fuel n c (never n)
      ∙ read_parts_hangs never fuel (suc n) (add_part (next_part n) c)
