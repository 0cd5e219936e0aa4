-- ===== src/Driver/Files/Pipe.antt =====
-- BG96/BG96.cpp: the bytes that the loop of an upload sends, and that the loop of a download stores.
use mathlib.Core.List.{append-nil, append_assoc}
use bg96_driver.Prelude.{
  ℕ, zero, suc, ◌≤◌, ◌<◌, ◌%◌, ◌≡◌, refl, sym, ap, ◌∙◌, arith, pos, some, List, [], ◌∷◌, ◌++◌,
  length, take,
}
use bg96_driver.At.{AtParser, Bg96, parser_putc, parser_getc}
use bg96_driver.Driver.Files.{get_all}
use bg96_driver.Driver.Files.Upload.{put_all}
use bg96_driver.Driver.Files.Transfer.{put_bytes, put_all_total}

abbrev pub AreBytes : List ℕ → Type 0
AreBytes [] = Unit {0}
AreBytes (b ∷ r) = (b < 256) × AreBytes r

pub take-all : (xs : List ℕ) → take (length xs) xs ≡ xs
take-all [] = refl
take-all (x ∷ xs) = ap (λ r. x ∷ r) (take-all xs)

module _ {D : Type 0} (io : AtParser D) (queue : D → List ℕ) where
  open io use {putc, getc}

  pub put_bytes-queue :
      ((t b : ℕ) (d : D) → queue (putc t b d) ≡ queue d ++ b ∷ [])
      → (bytes : List ℕ) (s : Bg96 D) → queue (put_bytes io bytes s).dev ≡ queue s.dev ++ bytes
  unfolding put_bytes
  put_bytes-queue puts [] s = sym (append-nil (queue s.dev))
  put_bytes-queue puts (b ∷ r) s =
      put_bytes-queue puts r (parser_putc io b s).1
      ∙ ap (λ x. x ++ r) (puts s.timeout b s.dev)
      ∙ append_assoc (queue s.dev) (b ∷ []) r

  pub get_all-queue :
      ((t : ℕ) (d : D) (b : ℕ) (r : List ℕ)
        → queue d ≡ b ∷ r
        → ((getc t d).0 ≡ pos b) × (queue (getc t d).1 ≡ r))
      → (bytes : List ℕ) (s : Bg96 D) → AreBytes bytes
      → queue s.dev ≡ bytes
      → (get_all io (length bytes) s).0 ≡ bytes
  unfolding get_all
  get_all-queue gets [] s a e = refl
  get_all-queue gets (b ∷ r) s (lt, a) e =
      let (c, q) = gets s.timeout s.dev b r e in
      let rest = get_all-queue gets r (parser_getc io s).1 a q in
      let small : b % 4294967296 % 256 ≡ b = omega (arith, lt) in rw (c, small, rest) refl

  -- The loop of a download takes the first bytes of what is there.
  pub get_all-take :
      ((t : ℕ) (d : D) (b : ℕ) (r : List ℕ)
        → queue d ≡ b ∷ r
        → ((getc t d).0 ≡ pos b) × (queue (getc t d).1 ≡ r))
      → (n : ℕ) (bytes : List ℕ) (s : Bg96 D) → AreBytes bytes
      → n ≤ length bytes
      → queue s.dev ≡ bytes
      → (get_all io n s).0 ≡ take n bytes
  unfolding get_all
  get_all-take gets zero [] s a le e = refl
  get_all-take gets zero (b ∷ r) s a le e = refl
  get_all-take gets (suc n) [] s a le e = absurd (omega (arith, le))
  get_all-take gets (suc n) (b ∷ r) s (lt, a) le e =
      let (c, q) = gets s.timeout s.dev b r e in
      let rest = get_all-take gets n r (parser_getc io s).1 a (omega (arith, le)) q in
      let small : b % 4294967296 % 256 ≡ b = omega (arith, lt) in rw (c, small, rest) refl

  -- Over a channel that gives the bytes back in the order in which they were written, and that is
  -- empty at first, the loop of an upload and then that of a download of the same size give the bytes
  -- of the buffer, if the counter of the upload can hold the size.
  get_all-put_all :
      ((t b : ℕ) (d : D) → queue (putc t b d) ≡ queue d ++ b ∷ [])
      → ((t : ℕ) (d : D) (b : ℕ) (r : List ℕ)
          → queue d ≡ b ∷ r
          → ((getc t d).0 ≡ pos b) × (queue (getc t d).1 ≡ r))
      → (limit : ℕ) (bytes : List ℕ) (s : Bg96 D) → AreBytes bytes
      → length bytes < limit
      → queue s.dev ≡ []
      → (s' : Bg96 D) × (put_all io limit 0 (length bytes) bytes s ≡ some (tt, s'))
        × ((get_all io (length bytes) s').0 ≡ bytes)
  get_all-put_all puts gets limit bytes s a lt e =
      let s' = put_bytes io bytes s in
      (
        s',
        put_all_total io limit (length bytes) bytes s lt (omega arith)
            ∙ ap (λ x. some (tt, put_bytes io x s)) (take-all bytes),
        get_all-queue gets bytes s' a (put_bytes-queue puts bytes s ∙ ap (λ x. x ++ bytes) e),
      )
