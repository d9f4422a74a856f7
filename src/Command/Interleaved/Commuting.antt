-- ===== src/Command/Interleaved/Commuting.antt =====
-- Changes of different keys commute, in the contract.
use mathlib.Core.Path.{fun_ext}
use in_memory_db.Base.{
  ℕ, ◌≡◌, refl, false, List, [], ◌∷◌, ◌++◌, arith, All, All-append, Bool-cases, inl, inr, sym, ap,
  ◌∙◌,
}
use in_memory_db.Text.{Bytes, bytes_eq, bytes_eq_iff}
use in_memory_db.Command.{Command}
use in_memory_db.Command.Spec.{Contents, apply, key_of, apply_frame, apply_local}
use in_memory_db.Command.History.{apply_all}

apart_sym : (a b : Bytes) → bytes_eq a b ≡ false → bytes_eq b a ≡ false
apart_sym a b h = ground (arith, h, bytes_eq_iff a b, bytes_eq_iff b a)

pub apply_comm :
    (now later : ℕ) (c d : Command) (m : Contents)
    → bytes_eq (key_of c) (key_of d) ≡ false
    → apply now c (apply later d m) ≡ apply later d (apply now c m)
apply_comm now later c d m h = fun_ext λ j.
    let h' = apart_sym (key_of c) (key_of d) h in
    elim (Bool-cases (bytes_eq (key_of d) j)) [
      | inl e ↦
          let same : key_of d ≡ j = (bytes_eq_iff (key_of d) j).0 e in
          let apart : bytes_eq (key_of c) j ≡ false = rw (← same) h in
          apply_frame now c (apply later d m) j apart
          ∙ apply_local later d m (apply now c m) j (sym (apply_frame now c m (key_of d) h))
              (sym (apply_frame now c m j apart))
      | inr e ↦
          apply_local now c (apply later d m) m j (apply_frame later d m (key_of c) h')
            (apply_frame later d m j e)
          ∙ sym (apply_frame later d (apply now c m) j e)
    ]

-- No change of the list is to the key.
abbrev pub Apart : Bytes → List (ℕ × Command) → Type 0
Apart k = All (λ x. bytes_eq k (key_of x.1) ≡ false)

abbrev pub AllApart : List (ℕ × Command) → Type 0
AllApart [] = Unit
AllApart (x ∷ xs) = Apart (key_of x.1) xs × AllApart xs

pub apply_all-append :
    (xs ys : List (ℕ × Command)) (m : Contents)
    → apply_all (xs ++ ys) m ≡ apply_all ys (apply_all xs m)
unfolding apply_all
apply_all-append [] ys m = refl
apply_all-append ((now, c) ∷ xs) ys m = apply_all-append xs ys (apply now c m)

-- A change moves behind others that are apart from it.
pub apply_all-apply :
    (now : ℕ) (c : Command) (xs : List (ℕ × Command)) (m : Contents)
    → Apart (key_of c) xs
    → apply_all xs (apply now c m) ≡ apply now c (apply_all xs m)
unfolding apply_all
apply_all-apply now c [] m h = refl
apply_all-apply now c ((later, d) ∷ xs) m h =
    ap (apply_all xs) (sym (apply_comm now later c d m h.0))
    ∙ apply_all-apply now c xs (apply later d m) h.1

pub apply_all-snoc :
    (xs : List (ℕ × Command)) (now : ℕ) (c : Command) (m : Contents)
    → apply_all (xs ++ (now, c) ∷ []) m ≡ apply now c (apply_all xs m)
unfolding apply_all
apply_all-snoc xs now c m = apply_all-append xs ((now, c) ∷ []) m

-- A change among others may as well come first, if it is apart from those before it.
pub apply_all-remove :
    (before : List (ℕ × Command)) (now : ℕ) (c : Command) (after : List (ℕ × Command))
    (m : Contents)
    → Apart (key_of c) before
    → apply_all (before ++ (now, c) ∷ after) m ≡ apply_all (before ++ after) (apply now c m)
unfolding apply_all
apply_all-remove before now c after m h =
    apply_all-append before ((now, c) ∷ after) m
    ∙ ap (apply_all after) (sym (apply_all-apply now c before m h))
    ∙ sym (apply_all-append before after (apply now c m))

pub AllApart-snoc :
    (x : ℕ × Command) (xs : List (ℕ × Command))
    → AllApart xs
    → Apart (key_of x.1) xs
    → AllApart (xs ++ x ∷ [])
AllApart-snoc x [] a h = (tt, tt)
AllApart-snoc x (y ∷ ys) a h = (
  All-append (λ z. bytes_eq (key_of y.1) (key_of z.1) ≡ false) ys (x ∷ []) a.0
      (apart_sym (key_of x.1) (key_of y.1) h.0, tt),
  AllApart-snoc x ys a.1 h.1,
)

All-remove {ℓ κ} :
    {A : Type ℓ} (P : A → Type κ) (before : List A) (x : A) (after : List A)
    → All P (before ++ x ∷ after)
    → P x × All P (before ++ after)
All-remove P [] x after h = h
All-remove P (y ∷ ys) x after h = let (p, r) = All-remove P ys x after h.1 in (p, (h.0, r))

-- One of several changes that are apart is apart from those before it, and the others stay so.
pub AllApart-remove :
    (before : List (ℕ × Command)) (x : ℕ × Command) (after : List (ℕ × Command))
    → AllApart (before ++ x ∷ after)
    → Apart (key_of x.1) before × AllApart (before ++ after)
AllApart-remove [] x after a = (tt, a.1)
AllApart-remove (y ∷ ys) x after a =
    let (p, r) = AllApart-remove ys x after a.1 in
    let (q, s) = All-remove (λ z. bytes_eq (key_of y.1) (key_of z.1) ≡ false) ys x after a.0 in
    ((apart_sym (key_of y.1) (key_of x.1) q, p), (s, r))
