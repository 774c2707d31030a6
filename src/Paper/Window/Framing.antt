-- ===== src/Paper/Window/Framing.antt =====
-- The length framing of `make_forward_commitment`: no value borrows bytes from its neighbour.
use Prim.Native.Nat.{◌/◌, ◌%◌}
use sharpearena.Prelude.{
  String, ℕ, zero, suc, ◌*◌, ◌<◌, ◌≡◌, refl, sym, ◌∙◌, ap, List, [], ◌∷◌, ◌++◌, length, All,
  length-append, arith,
}
use sharpearena.Paper.Window.{Hashing, big_endian, framed, encoded, commitment_bytes}

module _ {A : Type 0} where
  append-cancel :
      (xs xs' ys ys' : List A)
      → length xs ≡ length xs'
      → xs ++ ys ≡ xs' ++ ys'
      → (xs ≡ xs') × (ys ≡ ys')
  append-cancel [] [] ys ys' n e = (refl, e)
  append-cancel [] (x' ∷ xs') ys ys' n e = absurd (omega (arith, n))
  append-cancel (x ∷ xs) [] ys ys' n e = absurd (omega (arith, n))
  append-cancel (x ∷ xs) (x' ∷ xs') ys ys' n e =
      let (p, q) = append-cancel xs xs' ys ys' (ground arith) (ground arith) in (ground arith, q)

-- The numbers that w bytes hold.
abbrev pub bytes_hold : ℕ → ℕ
bytes_hold zero = 1
bytes_hold (suc w) = bytes_hold w * 256

length-big_endian : (w n : ℕ) → length (big_endian w n) ≡ w
unfolding big_endian
length-big_endian zero n = refl
length-big_endian (suc w) n =
    length-append (big_endian w (n / 256)) (n % 256 ∷ [])
    ∙ omega (arith, length-big_endian w (n / 256))

big_endian-injective :
    (w n m : ℕ) → n < bytes_hold w → m < bytes_hold w → big_endian w n ≡ big_endian w m → n ≡ m
unfolding big_endian
big_endian-injective zero n m hn hm e = omega arith
big_endian-injective (suc w) n m hn hm e =
    let (p, q) =
      append-cancel (big_endian w (n / 256)) (big_endian w (m / 256)) (n % 256 ∷ []) (m % 256 ∷ [])
        (length-big_endian w (n / 256) ∙ sym (length-big_endian w (m / 256))) e in
    let top = big_endian-injective w (n / 256) (m / 256) (omega arith) (omega arith) p in
    let low : n % 256 ≡ m % 256 = ground arith in omega arith

abbrev pub Fits : List ℕ → Type 0
Fits part = length part < bytes_hold 8

framed-injective :
    (xs ys : List (List ℕ))
    → All Fits xs
    → All Fits ys
    → length xs ≡ length ys
    → framed xs ≡ framed ys
    → xs ≡ ys
unfolding framed
framed-injective [] [] fx fy n e = refl
framed-injective [] (y ∷ ys) fx fy n e = absurd (omega (arith, n))
framed-injective (x ∷ xs) [] fx fy n e = absurd (omega (arith, n))
framed-injective (x ∷ xs) (y ∷ ys) (fx, gx) (fy, gy) n e =
    let (headers, bodies) =
      append-cancel (big_endian 8 (length x)) (big_endian 8 (length y)) (x ++ framed xs)
        (y ++ framed ys) (length-big_endian 8 (length x) ∙ sym (length-big_endian 8 (length y)))
        e in
    let same = big_endian-injective 8 (length x) (length y) fx fy headers in
    let (p, rest) = append-cancel x y (framed xs) (framed ys) same bodies in
    let q = framed-injective xs ys gx gy (omega (arith, n)) rest in cc

length-encoded : (h : Hashing) (ps : List String) → length (encoded h ps) ≡ length ps
length-encoded h [] = refl
length-encoded h (p ∷ ps) = ap suc (length-encoded h ps)

-- Two lists of values that are hashed to a commitment by the same bytes have the same encodings,
-- value by value, where the lists and the encodings are shorter than 256 ^ 8.
pub commitment_bytes-injective :
    (h : Hashing) (ps qs : List String)
    → length ps < bytes_hold 8
    → length qs < bytes_hold 8
    → All Fits (encoded h ps)
    → All Fits (encoded h qs)
    → commitment_bytes h ps ≡ commitment_bytes h qs
    → encoded h ps ≡ encoded h qs
unfolding commitment_bytes
commitment_bytes-injective h ps qs np nq fp fq e =
    let domain = h.utf8 "sharpebench-attest/commitment/v2" in
    let (d, tail) =
      append-cancel domain domain ((0 ∷ []) ++ (big_endian 8 (length ps) ++ framed (encoded h ps)))
        ((0 ∷ []) ++ (big_endian 8 (length qs) ++ framed (encoded h qs))) refl e in
    let (z, counted) =
      append-cancel (0 ∷ []) (0 ∷ []) (big_endian 8 (length ps) ++ framed (encoded h ps))
        (big_endian 8 (length qs) ++ framed (encoded h qs)) refl tail in
    let (counts, bodies) =
      append-cancel (big_endian 8 (length ps)) (big_endian 8 (length qs)) (framed (encoded h ps))
        (framed (encoded h qs))
        (length-big_endian 8 (length ps) ∙ sym (length-big_endian 8 (length qs))) counted in
    let n = big_endian-injective 8 (length ps) (length qs) np nq counts in
    framed-injective (encoded h ps) (encoded h qs) fp fq
      (length-encoded h ps ∙ n ∙ sym (length-encoded h qs)) bodies
