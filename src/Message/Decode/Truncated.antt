-- ===== src/Message/Decode/Truncated.antt =====
-- `Message::decode` on input that ends too early.
use native.Mathlib.Decide.{dec_lt}
use rusftp.Prelude.{
  ℕ, suc, ◌+◌, ◌-◌, ◌^◌, ◌<◌, ◌≡◌, refl, ap, [], ◌∷◌, ◌++◌, length, length-append, length-take,
  take, take-append, drop-append, lt→ltb, le→ltb, arith,
}
use rusftp.Wire.Bytes.{put_be, length-put_be, get_be-put_be}
use rusftp.Message.Types.{Bytes, Message}
use rusftp.Message.Format
use rusftp.Message.Decode.{panic, decode}

-- `take` of a prefix and some of what follows it.
pub take-append_more :
    (n m : ℕ) (xs ys : Bytes) → n ≡ m + length xs → take n (xs ++ ys) ≡ xs ++ take m ys
take-append_more n m [] ys e = rw (zero_case)
  where
    zero_case : n ≡ m
    zero_case = omega arith
take-append_more n m (x ∷ xs) ys e =
    rw (suc_case) (ap (λ l. x ∷ l) (take-append_more (m + length xs) m xs ys refl))
  where
    suc_case : n ≡ suc (m + length xs)
    suc_case = omega arith

decode-short : (buf : Bytes) → length buf < 4 → decode buf ≡ panic
unfolding decode
decode-short buf h = rw (lt→ltb (length buf) 4 h)

decode-cut : (n : ℕ) (q : Bytes) → n < 2 ^ 32 → length q < n → decode (put_be 4 n ++ q) ≡ panic
unfolding decode
decode-cut n q fits h =
    rw
      (le→ltb (length (put_be 4 n ++ q)) 4
        (omega (arith, length-append (put_be 4 n) q, length-put_be 4 n)))
      (rw (take-append (put_be 4 n) q (length-put_be 4 n)) (
        rw (drop-append (put_be 4 n) q (length-put_be 4 n))
          (rw (get_be-put_be 4 n fits) (rw (lt→ltb (length q) n h)))))

-- On a frame that has not arrived whole, of a packet shorter than 2 ^ 32 bytes, `decode` reports no
-- error: it panics, wherever the frame is cut.
pub decode-truncated :
    (m : Message) (id n : ℕ)
    → length (Format.packet id m) < 2 ^ 32
    → n < length (Format.frame id m)
    → decode (take n (Format.frame id m)) ≡ panic
unfolding Format.frame
decode-truncated m id n short cut =
    let p = Format.packet id m in
    let all = length-append (put_be 4 (length p)) p in
    elim (dec_lt n 4) [
      | yes few ↦ decode-short _ (omega (arith, length-take n (put_be 4 (length p) ++ p)))
      | no enough ↦
          rw
            (take-append_more n (n - 4) (put_be 4 (length p)) p
              (omega (arith, length-put_be 4 (length p))))
            (decode-cut (length p) (take (n - 4) p) short
              (omega (arith, all, length-put_be 4 (length p), length-take (n - 4) p)))
    ]
