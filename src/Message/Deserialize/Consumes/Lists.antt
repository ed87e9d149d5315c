-- ===== src/Message/Deserialize/Consumes/Lists.antt =====
-- The same of the entries of a NAME, src/message/name.rs, and of the code of a status, src/message/status.rs.
use rusftp.Prelude.{
  ℕ, zero, suc, ◌≡◌, refl, ap, ◌∙◌, List, [], ◌∷◌, ◌++◌, Option, none, some, length, concat, map,
  arith, pure, ◌>>=◌,
}
use rusftp.Wire.Bytes.{put_be}
use rusftp.Wire.Field.{has_length}
use rusftp.Wire.Decoder.{De, SeqM, SeqAccess, next_element}
use rusftp.Wire.Decoder.Growth.{Every}
use rusftp.Wire.Decoder.Growth.Sequences.{IsAt}
use rusftp.Wire.Decoder.Consumes.{Consumes-bind, Consumes-map, Takes, bind-ok, newtype-Takes}
use rusftp.Wire.Decoder.Consumes.Sequences.{
  Visits, IsFound, next_element-Visits, next_element-ends, deserialize_seq-Takes, unit_enum-Takes,
}
use rusftp.Message.Types.{Bytes, Name, StatusCode}
use rusftp.Message.Format
use rusftp.Message.Deserialize.{name_entry, elements_loop, name, status_code, variant_of}
use rusftp.Message.Deserialize.Consumes.{Is, name_entry-Takes}

-- The elements of a sequence of `k`, one after the other.
abbrev IsList : {A : Type 0} → (A → Bytes) → ℕ → List A → Bytes → Type 0
IsList L k l bs = (bs ≡ concat (map L l)) × (length l ≡ k)

elements_loop-Visits :
    {A : Type 0} (L : A → Bytes) (seed : De A)
    → Takes Every (Is L) seed
    → (fuel k : ℕ) → Visits (IsAt [] (some k)) Every (IsList L k) (elements_loop seed fuel)
unfolding elements_loop pure concat
elements_loop-Visits L seed h zero k s l t at bytes e = cc e
elements_loop-Visits L seed h (suc fuel) zero s l t at bytes e =
    let (o, u, first, second) = bind-ok (next_element seed) _ s l t e in
    let (over, same) = next_element-ends seed s u o at.1 first in
    let done = rw (over) at second in
    let empty : [] ≡ l = cc done in
    let here : u ≡ t = cc done in
    ([], rw (← empty) (refl, refl), same ∙ ap (λ (v : SeqAccess). v.decoder.buf) here, tt)
elements_loop-Visits {A} L seed h (suc fuel) (suc k) s l t at bytes e =
    Consumes-bind (IsList L (suc k)) (next_element seed) _
      (next_element-Visits seed [] k (λ d e. tt) h) (found (elements_loop-Visits L seed h fuel k)) s
      l t at bytes e
  where
    found :
        Visits (IsAt [] (some k)) Every (IsList L k) (elements_loop seed fuel)
        → (o : Option A) (bs : Bytes) → IsFound (Is L) o bs
        → Visits
            (IsAt [] (some k))
            Every
            (λ l cs. IsList L (suc k) l (bs ++ cs))
            (elim o as (λ _. SeqM (List A)) [
              | none ↦ pure []
              | some a ↦ elements_loop seed fuel >>= λ l. pure (a ∷ l)
            ])
    found ih none bs (a, some_a, is) = cc some_a
    found ih (some b) bs (a, some_a, is) =
        let same : b ≡ a = cc some_a in
        Consumes-map (λ l cs. IsList L (suc k) l (bs ++ cs)) (elements_loop seed fuel) (λ l. b ∷ l)
          ih (λ l cs r. (rw (is, r.0, same) refl, omega (arith, r.1)))

pub name-Takes :
    Takes Every
      (Is (λ (n : Name). Format.u32 (length n.entries) ++ concat (map Format.entry n.entries)))
      name
unfolding name has_length
name-Takes = newtype-Takes "Name" _ refl (
    Consumes-map _ _ (λ l. record { entries = l })
      (deserialize_seq-Takes (IsList Format.entry) _ (λ k s.
        elements_loop-Visits Format.entry name_entry name_entry-Takes (suc (length s.decoder.buf)) k
          s))
      (λ l bs (n, cs, whole, is). rw (whole, is.0, is.1) refl))

variant_of-number : (n : ℕ) (c : StatusCode) → variant_of n ≡ some c → n ≡ Format.status_number c
unfolding variant_of Format.status_number
variant_of-number n c e = ground (arith, e)

pub status_code-Takes : Takes Every (Is (λ c. Format.u32 (Format.status_number c))) status_code
unfolding status_code
status_code-Takes =
    unit_enum-Takes _ "StatusCode" _ variant_of (λ n c e. ap (put_be 4) (variant_of-number n c e))
