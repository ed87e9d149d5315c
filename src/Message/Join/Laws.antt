-- ===== src/Message/Join/Laws.antt =====
-- Paths with `/` are a monoid, and stay text.
use rusftp.Prelude.{
  ℕ, ◌≡◌, refl, true, [], ◌∷◌, ◌++◌, none, some, ◌==◌, arith, append_assoc, if◌then◌else◌, false,
  Bool-cases, inl, inr, ap, sym, ◌∙◌,
}
use rusftp.Wire.Utf8.{is_utf8, is_utf8-append}
use rusftp.Message.Types.{Bytes, FilePath}
use rusftp.Message.Join.{join, slash, last, push_separator, div_assign, div}

last-append : (a : Bytes) (c : ℕ) (b : Bytes) → last (a ++ c ∷ b) ≡ last (c ∷ b)
unfolding last
last-append [] c b = refl
last-append (x ∷ []) c b = refl
last-append (x ∷ y ∷ a) c b = last-append (y ∷ a) c b

-- A text behind another decides by itself whether a separator is missing.
push_separator-append :
    (a : Bytes) (c : ℕ) (b : Bytes) → push_separator (a ++ c ∷ b) ≡ a ++ push_separator (c ∷ b)
unfolding push_separator
push_separator-append a c b =
    rw (push_separator, last-append a c b) (ground (arith, append_assoc a (c ∷ b) (slash ∷ [])))

-- What a separator is put behind is still there.
push_separator-cons : (c : ℕ) (a : Bytes) → (b : Bytes) × (push_separator (c ∷ a) ≡ c ∷ b)
unfolding push_separator
push_separator-cons c a =
    elim (last (c ∷ a))
      as (λ o.
        (b : Bytes) × (elim o [
          | none ↦ c ∷ a
          | some d ↦ if d == slash then c ∷ a else c ∷ a ++ slash ∷ []
        ]
          ≡ c ∷ b)) [
            | none ↦ (a, refl)
            | some d ↦
                elim (d == slash)
                  as (λ t. (b : Bytes) × (if t then c ∷ a else c ∷ a ++ slash ∷ []) ≡ c ∷ b) [
                    | true ↦ (a, refl)
                    | false ↦ (a ++ slash ∷ [], refl)
                  ]
          ]

join-nil : (a : Bytes) → join a [] ≡ a
unfolding join
join-nil [] = refl
join-nil (c ∷ a) = refl

join-absolute : (a : Bytes) (r : ℕ) (b : Bytes) → (r == slash) ≡ true → join a (r ∷ b) ≡ r ∷ b
unfolding join
join-absolute [] r b h = refl
join-absolute (x ∷ a) r b h = rw (h) refl

join-relative :
    (x : ℕ) (a : Bytes) (r : ℕ) (b : Bytes)
    → (r == slash) ≡ false
    → join (x ∷ a) (r ∷ b) ≡ push_separator (x ∷ a) ++ r ∷ b
unfolding join
join-relative x a r b h = rw (h) refl

-- Behind an absolute path nothing of what stood before is left.
join_assoc_absolute :
    (a : Bytes) (y : ℕ) (b c : Bytes)
    → (y == slash) ≡ true
    → join a (push_separator (y ∷ b) ++ c) ≡ push_separator (y ∷ b) ++ c
join_assoc_absolute a y b c h =
    let (t, e) = push_separator-cons y b in rw (e) (join-absolute a y (t ++ c) h)

join_assoc_relative :
    (x : ℕ) (a : Bytes) (y : ℕ) (b : Bytes) (z : ℕ) (c : Bytes)
    → (y == slash) ≡ false
    → (z == slash) ≡ false
    → join (push_separator (x ∷ a) ++ y ∷ b) (z ∷ c)
      ≡ join (x ∷ a) (push_separator (y ∷ b) ++ z ∷ c)
join_assoc_relative x a y b z c hy hz = under ∙ sym over
  where
    middle : Bytes
    middle = push_separator (x ∷ a) ++ (push_separator (y ∷ b) ++ z ∷ c)

    under : join (push_separator (x ∷ a) ++ y ∷ b) (z ∷ c) ≡ middle
    under =
        let (t, e) = push_separator-cons x a in
        rw (e) (
          join-relative x (t ++ y ∷ b) z c hz
          ∙ ap (λ l. l ++ z ∷ c) (push_separator-append (x ∷ t) y b)
          ∙ append_assoc (x ∷ t) (push_separator (y ∷ b)) (z ∷ c))

    over : join (x ∷ a) (push_separator (y ∷ b) ++ z ∷ c) ≡ middle
    over = let (u, f) = push_separator-cons y b in rw (f) (join-relative x a y (u ++ z ∷ c) hy)

join_assoc : (a b c : Bytes) → join (join a b) c ≡ join a (join b c)
unfolding join
join_assoc [] b c = refl
join_assoc (x ∷ a) [] c = refl
join_assoc (x ∷ a) (y ∷ b) [] = join-nil (join (x ∷ a) (y ∷ b))
join_assoc (x ∷ a) (y ∷ b) (z ∷ c) = elim (Bool-cases (z == slash)) [
  | inl over ↦
      join-absolute (join (x ∷ a) (y ∷ b)) z c over
      ∙ sym (ap (join (x ∷ a)) (join-absolute (y ∷ b) z c over) ∙ join-absolute (x ∷ a) z c over)
  | inr under ↦ elim (Bool-cases (y == slash)) [
    | inl over ↦
        ap (λ l. join l (z ∷ c)) (join-absolute (x ∷ a) y b over)
        ∙ join-relative y b z c under
        ∙ sym (
            ap (join (x ∷ a)) (join-relative y b z c under)
            ∙ join_assoc_absolute (x ∷ a) y b (z ∷ c) over)
    | inr low ↦
        ap (λ l. join l (z ∷ c)) (join-relative x a y b low)
        ∙ join_assoc_relative x a y b z c low under
        ∙ sym (ap (join (x ∷ a)) (join-relative y b z c under))
  ]
]

-- Joined texts are text.
join-is_utf8 : (a b : Bytes) → is_utf8 a ≡ true → is_utf8 b ≡ true → is_utf8 (join a b) ≡ true
unfolding join push_separator
join-is_utf8 [] b ha hb = hb
join-is_utf8 (x ∷ a) [] ha hb = ha
join-is_utf8 (x ∷ a) (y ∷ b) ha hb =
    let e = is_utf8-append (x ∷ a) (y ∷ b) ha hb in
    let s = is_utf8-append (x ∷ a) (slash ∷ []) ha slash-is_utf8 in
    let f = is_utf8-append (x ∷ a ++ slash ∷ []) (y ∷ b) s hb in ground (arith, e, f, hb)
  where
    slash-is_utf8 : is_utf8 (slash ∷ []) ≡ true
    slash-is_utf8 = unfold is_utf8 in refl

-- Paths with `/` are a monoid whose unit is the empty path.
pub div_monoid :
    (p q r : FilePath)
    → (div (div p q) r ≡ div p (div q r))
      × (div (record { text = [] }) p ≡ p)
      × (div p (record { text = [] }) ≡ p)
unfolding div div_assign
div_monoid p q r = (
  ap (λ (t : Bytes). record { text = t }) (join_assoc p.text q.text r.text),
  refl,
  ap (λ (t : Bytes). record { text = t }) (join-nil p.text),
)

-- The join of two paths that are text is text.
div-is_utf8 :
    (p q : FilePath) → is_utf8 p.text ≡ true → is_utf8 q.text ≡ true → is_utf8 (div p q).text ≡ true
unfolding div div_assign
div-is_utf8 p q = join-is_utf8 p.text q.text
