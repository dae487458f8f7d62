-- ===== src/Ata/Drive/Moving.antt =====
-- The loops that move the words of a sector.
use Prim.Native.Nat.{bit_or}
use mathlib.Core.List.{append_assoc}
use hydra_os.Common.{
  ℕ, zero, suc, ◌+◌, ◌*◌, ◌/◌, ◌%◌, ◌^◌, ◌<◌, ◌≡◌, ◌∙◌, refl, sym, ap, ap₂, false, List, [], ◌∷◌,
  ◌++◌, length, length-append, get_or, set, u16, ◌==◌, if◌then◌else◌, arith,
}
use hydra_os.Common.Bits.{bit_or_bytes}
use hydra_os.Common.ByteLists.{IsBytes, byte}
use hydra_os.Ports.{Ports}
use hydra_os.Ata.{Ata, word_at, read_words, write_words}
use hydra_os.Ata.Drive.{View, idle, taking, given, filled, IsDrive}

set-two :
    (pre rest : List ℕ) (x y a b : ℕ)
    → set (set (pre ++ x ∷ y ∷ rest) (length pre) a) (suc (length pre)) b
      ≡ (pre ++ a ∷ b ∷ []) ++ rest
set-two [] rest x y a b = refl
set-two (c ∷ pre) rest x y a b = ap (λ l. c ∷ l) (set-two pre rest x y a b)

get_or-append : (pre rest : List ℕ) (a : ℕ) → get_or (pre ++ a ∷ rest) (length pre) 0 ≡ a
get_or-append [] rest a = refl
get_or-append (c ∷ pre) rest a = get_or-append pre rest a

get_or-append_next :
    (pre rest : List ℕ) (a b : ℕ) → get_or (pre ++ a ∷ b ∷ rest) (suc (length pre)) 0 ≡ b
get_or-append_next [] rest a b = refl
get_or-append_next (c ∷ pre) rest a b = get_or-append_next pre rest a b

word_at-append :
    (pre rest : List ℕ) (a b q : ℕ)
    → q ≡ length pre
    → a < 2 ^ 8
    → word_at (pre ++ a ∷ b ∷ rest) q ≡ a + b * 2 ^ 8
unfolding word_at
word_at-append pre rest a b q e lt =
    ap₂ bit_or (ap (λ k. get_or (pre ++ a ∷ b ∷ rest) k 0) e ∙ get_or-append pre (b ∷ rest) a) (
      ap (λ v. v * 2 ^ 8)
        (ap (λ k. get_or (pre ++ a ∷ b ∷ rest) k 0) {y = suc (length pre)} (omega arith)
          ∙ get_or-append_next pre rest a b))
    ∙ bit_or_bytes a b lt

-- The two bytes of a word take their places.
store-word :
    (pre rest : List ℕ) (x y a b w k : ℕ)
    → k ≡ length pre
    → w ≡ a + b * 2 ^ 8
    → a < 2 ^ 8
    → b < 2 ^ 8
    → set (set (pre ++ x ∷ y ∷ rest) k (w % 2 ^ 8)) (k + 1) (w / 2 ^ 8 % 2 ^ 8)
      ≡ (pre ++ a ∷ b ∷ []) ++ rest
store-word pre rest x y a b w k at word la lb =
    ap₂ (λ l h. set (set (pre ++ x ∷ y ∷ rest) k l) (k + 1) h) low high
    ∙ ap₂ (λ k' k''. set (set (pre ++ x ∷ y ∷ rest) k' a) k'' b) at next
    ∙ set-two pre rest x y a b
  where
    low : w % 2 ^ 8 ≡ a
    low = omega (arith, word)

    high : w / 2 ^ 8 % 2 ^ 8 ≡ b
    high = omega (arith, word)

    next : k + 1 ≡ suc (length pre)
    next = omega (arith, at)

module _ (p : Ports) (ata : Ata) (d : IsDrive p ata) where
  open p use {State, in16, out16}
  open d use {view}

  -- The loop has moved the bytes, and the drive is done.
  pub read_words_lem :
      (n o i : ℕ) (pre rest bytes : List ℕ) (s : State)
      → length bytes ≡ n * 2
      → length rest ≡ n * 2
      → length pre ≡ o + i * 2
      → IsBytes bytes
      → (view s).phase ≡ given bytes
      → (view s).delay ≡ 0
      → ((read_words p ata n o i (pre ++ rest) s).0 ≡ pre ++ bytes)
        × (view (read_words p ata n o i (pre ++ rest) s).1 ≡ record (view s) { phase = idle })
  unfolding read_words
  read_words_lem zero o i pre [] [] s e1 e2 e3 v ph e =
      (refl, ap (λ ph. record (view s) { phase = ph }) ph)
  read_words_lem zero o i pre (x ∷ rest) bytes s e1 e2 e3 v ph e = absurd (omega arith)
  read_words_lem zero o i pre [] (b ∷ bytes) s e1 e2 e3 v ph e = absurd (omega arith)
  read_words_lem (suc n) o i pre (x ∷ y ∷ rest) (a ∷ b ∷ bytes) s e1 e2 e3 (byte la (byte lb v)) ph
        e =
      let next = (in16 s (u16 ata.port_base)).1 in
      let moved = d.in16_view s a b bytes ph e in
      let stored =
        store-word pre rest x y a b _ (o + i * 2) (sym e3) (d.in16_gives s a b bytes ph e) la lb in
      let ih =
        read_words_lem n o (i + 1) (pre ++ a ∷ b ∷ []) rest bytes next (omega arith) (omega arith)
          (omega (arith, length-append pre (a ∷ b ∷ []))) v (ap (λ (v : View). v.phase) moved)
          (ap (λ (v : View). v.delay) moved ∙ e) in
      (
        ap (λ buffer. (read_words p ata n o (i + 1) buffer next).0) stored
            ∙ ih.0
            ∙ append_assoc pre (a ∷ b ∷ []) bytes,
        ap (λ buffer. view (read_words p ata n o (i + 1) buffer next).1) stored
            ∙ ih.1
            ∙ ap (λ (v : View). record v { phase = idle }) moved,
      )
  read_words_lem (suc n) o i pre [] bytes s e1 e2 e3 v ph e = absurd (omega arith)
  read_words_lem (suc n) o i pre (x ∷ []) bytes s e1 e2 e3 v ph e = absurd (omega arith)
  read_words_lem (suc n) o i pre (x ∷ y ∷ rest) [] s e1 e2 e3 v ph e = absurd (omega arith)
  read_words_lem (suc n) o i pre (x ∷ y ∷ rest) (a ∷ []) s e1 e2 e3 v ph e = absurd (omega arith)

  out-word :
      (pre rest bytes : List ℕ) (a b k sector : ℕ) (s : State)
      → k ≡ length pre
      → a < 2 ^ 8
      → b < 2 ^ 8
      → (view s).phase ≡ taking sector bytes
      → (view s).delay ≡ 0
      → view (out16 s (u16 ata.port_base) (u16 (word_at (pre ++ a ∷ b ∷ rest) k)))
        ≡ filled (view s) sector (bytes ++ a ∷ b ∷ [])
  out-word pre rest bytes a b k sector s at la lb ph e =
      d.out16_view s _ sector bytes (omega arith) ph e
      ∙ ap₂ (λ l h. filled (view s) sector (bytes ++ l ∷ h ∷ [])) {y = a} {v = b}
          (omega (arith, word)) (omega (arith, word))
    where
      word : word_at (pre ++ a ∷ b ∷ rest) k ≡ a + b * 2 ^ 8
      word = word_at-append pre rest a b k at la

  filled-full :
      (v : View) (sector : ℕ) (bytes : List ℕ)
      → length bytes ≡ 512
      → filled v sector bytes
        ≡ record v { content = λ t. if t == sector then bytes else v.content t; phase = idle }
  filled-full v sector bytes e =
      ap
        (λ n.
          if n == 512
          then record v { content = λ t. if t == sector then bytes else v.content t; phase = idle }
          else record v { phase = taking sector bytes })
        e

  filled-more :
      (v : View) (sector : ℕ) (bytes : List ℕ)
      → length bytes < 512
      → filled v sector bytes ≡ record v { phase = taking sector bytes }
  filled-more v sector bytes lt =
      ap (λ b. if b then full else record v { phase = taking sector bytes }) less
    where
      full : View
      full = record v { content = λ t. if t == sector then bytes else v.content t; phase = idle }

      less : (length bytes == 512) ≡ false
      less = ground arith

  -- The drive has taken the bytes, and its sector is full.
  pub write_words_lem :
      (n o i sector : ℕ) (pre rest bytes : List ℕ) (s : State)
      → length rest ≡ suc n * 2
      → length bytes + length rest ≡ 512
      → length pre ≡ o + i * 2
      → IsBytes rest
      → (view s).phase ≡ taking sector bytes
      → (view s).delay ≡ 0
      → view (write_words p ata (suc n) o i (pre ++ rest) s) ≡ record (view s) {
        content = λ t. if t == sector then bytes ++ rest else (view s).content t;
        phase = idle;
      }
  unfolding write_words
  write_words_lem n o i sector pre [] bytes s e1 e2 e3 v ph e = absurd (omega arith)
  write_words_lem n o i sector pre (a ∷ []) bytes s e1 e2 e3 v ph e = absurd (omega arith)
  write_words_lem zero o i sector pre (a ∷ b ∷ c ∷ rest) bytes s e1 e2 e3 v ph e =
      absurd (omega arith)
  write_words_lem zero o i sector pre (a ∷ b ∷ []) bytes s e1 e2 e3 (byte la (byte lb v)) ph e =
      out-word pre [] bytes a b (o + i * 2) sector s (sym e3) la lb ph e
      ∙ filled-full (view s) sector (bytes ++ a ∷ b ∷ [])
          (omega (arith, length-append bytes (a ∷ b ∷ [])))
  write_words_lem (suc n) o i sector pre (a ∷ b ∷ rest) bytes s e1 e2 e3 (byte la (byte lb v)) ph
        e =
      let next = out16 s (u16 ata.port_base) (u16 (word_at (pre ++ a ∷ b ∷ rest) (o + i * 2))) in
      let moved : view next ≡ record (view s) { phase = taking sector (bytes ++ a ∷ b ∷ []) } =
        out-word pre rest bytes a b (o + i * 2) sector s (sym e3) la lb ph e
        ∙ filled-more (view s) sector (bytes ++ a ∷ b ∷ [])
            (omega (arith, length-append bytes (a ∷ b ∷ []))) in
      ap (λ buffer. view (write_words p ata (suc n) o (i + 1) buffer next))
        (sym (append_assoc pre (a ∷ b ∷ []) rest))
      ∙ write_words_lem n o (i + 1) sector (pre ++ a ∷ b ∷ []) rest (bytes ++ a ∷ b ∷ []) next
          (omega arith) (omega (arith, length-append bytes (a ∷ b ∷ [])))
          (omega (arith, length-append pre (a ∷ b ∷ []))) v (ap (λ (v : View). v.phase) moved)
          (ap (λ (v : View). v.delay) moved ∙ e)
      ∙ ap₂
          (λ (v : View) l. record v {
            content = λ t. if t == sector then l else v.content t;
            phase = idle;
          })
          moved (append_assoc bytes (a ∷ b ∷ []) rest)
