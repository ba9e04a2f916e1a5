-- ===== src/Dsim/Command/Payload.antt =====
-- The words that dsim_write_payload makes of a payload, and the bytes that the loop of dsim_read_data
-- makes of words.
use google_modules_display_s.Prelude.{
  ℕ, zero, suc, ◌+◌, ◌-◌, ◌*◌, ◌/◌, ◌%◌, ◌≤◌, ◌<◌, ◌≡◌, refl, sym, ap, ◌∙◌, min, List, [], ◌∷◌,
  ◌++◌, length, get_or, arith, ◌==◌, false,
}
use google_modules_display_s.Dsim.Command.{payload_words, word_bytes, long_bytes, align4}

-- A list of bytes.
abbrev pub Bytes : List ℕ → Type 0
Bytes [] = Unit
Bytes (b ∷ bs) = (b < 256) × Bytes bs

bytes_step : (n a w : ℕ) → a < 256 → word_bytes (suc n) (a + 256 * w) ≡ a ∷ word_bytes n w
unfolding word_bytes
bytes_step n a w h =
    let low : (a + 256 * w) % 256 ≡ a = omega arith in
    let high : (a + 256 * w) / 256 ≡ w = omega arith in rw low (rw high refl)

four_bytes :
    (a b c d : ℕ)
    → a < 256
    → b < 256
    → c < 256
    → d < 256
    → word_bytes 4 (a + b * 256 + c * 65536 + d * 16777216) ≡ a ∷ b ∷ c ∷ d ∷ []
unfolding word_bytes
four_bytes a b c d ha hb hc hd =
    let split : a + b * 256 + c * 65536 + d * 16777216
        ≡ a + 256 * (b + 256 * (c + 256 * (d + 256 * 0))) =
      omega arith in
    ap (word_bytes 4) split
    ∙ bytes_step 3 a _ ha
    ∙ ap (◌∷◌ a)
        (bytes_step 2 b _ hb ∙ ap (◌∷◌ b) (bytes_step 1 c _ hc ∙ ap (◌∷◌ c) (bytes_step 0 d 0 hd)))

three_bytes :
    (a b c : ℕ)
    → a < 256
    → b < 256
    → c < 256
    → word_bytes 3 (a + b * 256 + c * 65536) ≡ a ∷ b ∷ c ∷ []
unfolding word_bytes
three_bytes a b c ha hb hc =
    let split : a + b * 256 + c * 65536 ≡ a + 256 * (b + 256 * (c + 256 * 0)) = omega arith in
    ap (word_bytes 3) split
    ∙ bytes_step 2 a _ ha
    ∙ ap (◌∷◌ a) (bytes_step 1 b _ hb ∙ ap (◌∷◌ b) (bytes_step 0 c 0 hc))

two_bytes : (a b : ℕ) → a < 256 → b < 256 → word_bytes 2 (a + b * 256) ≡ a ∷ b ∷ []
unfolding word_bytes
two_bytes a b ha hb =
    let split : a + b * 256 ≡ a + 256 * (b + 256 * 0) = omega arith in
    ap (word_bytes 2) split ∙ bytes_step 1 a _ ha ∙ ap (◌∷◌ a) (bytes_step 0 b 0 hb)

one_byte : (a : ℕ) → a < 256 → word_bytes 1 a ≡ a ∷ []
unfolding word_bytes
one_byte a h = let e : a % 256 ≡ a = omega arith in rw e refl

pub length_words : (bs : List ℕ) → length (payload_words bs) * 4 ≡ align4 (length bs)
unfolding payload_words
length_words (a ∷ b ∷ c ∷ d ∷ bs) = omega (arith, length_words bs)
length_words (a ∷ b ∷ c ∷ []) = refl
length_words (a ∷ b ∷ []) = refl
length_words (a ∷ []) = refl
length_words [] = refl

-- A FIFO that gives the words `ws` from read t on.
abbrev Gives : (ℕ → ℕ) → ℕ → List ℕ → Type 0
Gives fifo t [] = Unit
Gives fifo t (w ∷ ws) = (fifo t ≡ w) × Gives fifo (suc t) ws

long_end : (fuel : ℕ) (fifo : ℕ → ℕ) (t : ℕ) → long_bytes fuel fifo t 0 ≡ []
unfolding long_bytes
long_end zero fifo t = refl
long_end (suc fuel) fifo t = refl

-- One turn of the loop: a word gives `xs`, and the rest `ys`.
long_turn :
    (fuel : ℕ) (fifo : ℕ → ℕ) (t n m w : ℕ) (xs ys : List ℕ)
    → 0 < n
    → min n 4 ≡ m
    → fifo t ≡ w
    → word_bytes m w ≡ xs
    → long_bytes fuel fifo (suc t) (n - 4) ≡ ys
    → long_bytes (suc fuel) fifo t n ≡ xs ++ ys
unfolding long_bytes
long_turn fuel fifo t n m w xs ys some_left em ew ex ey =
    let more : (n == 0) ≡ false = ground arith in rw more (rw em (rw ew (rw ex (rw ey refl))))

read_back :
    (fuel : ℕ) (fifo : ℕ → ℕ) (t : ℕ) (bs : List ℕ)
    → length bs ≤ fuel
    → Bytes bs
    → Gives fifo t (payload_words bs)
    → long_bytes fuel fifo t (length bs) ≡ bs
unfolding payload_words
read_back zero fifo t [] h ok g = long_end zero fifo t
read_back zero fifo t (a ∷ bs) h ok g = elim h [ ]
read_back (suc fuel) fifo t [] h ok g = long_end (suc fuel) fifo t
read_back (suc fuel) fifo t (a ∷ b ∷ c ∷ d ∷ bs) h ok g =
    long_turn fuel fifo t _ 4 _ (a ∷ b ∷ c ∷ d ∷ []) bs (omega arith) (omega arith) g.0
      (four_bytes a b c d ok.0 ok.1.0 ok.1.1.0 ok.1.1.1.0)
      (let same : length (a ∷ b ∷ c ∷ d ∷ bs) - 4 ≡ length bs = omega arith in
        rw same (read_back fuel fifo (suc t) bs (omega arith) ok.1.1.1.1 g.1))
read_back (suc fuel) fifo t (a ∷ b ∷ c ∷ []) h ok g =
    long_turn fuel fifo t 3 3 _ (a ∷ b ∷ c ∷ []) [] (omega arith) refl g.0
      (three_bytes a b c ok.0 ok.1.0 ok.1.1.0) (long_end fuel fifo _)
read_back (suc fuel) fifo t (a ∷ b ∷ []) h ok g =
    long_turn fuel fifo t 2 2 _ (a ∷ b ∷ []) [] (omega arith) refl g.0 (two_bytes a b ok.0 ok.1.0)
      (long_end fuel fifo _)
read_back (suc fuel) fifo t (a ∷ []) h ok g =
    long_turn fuel fifo t 1 1 _ (a ∷ []) [] (omega arith) refl g.0 (one_byte a ok.0)
      (long_end fuel fifo _)

Gives-list :
    (ws : List ℕ) (fifo : ℕ → ℕ) (t : ℕ)
    → ((k : ℕ) → fifo (t + k) ≡ get_or ws k 0)
    → Gives fifo t ws
Gives-list [] fifo t h = tt
Gives-list (w ∷ ws) fifo t h = (
  let at : t + 0 ≡ t = omega arith in sym (ap fifo at) ∙ h 0,
  Gives-list ws fifo (suc t)
      (λ k. let at : suc t + k ≡ t + suc k = omega arith in ap fifo at ∙ h (suc k)),
)

-- A payload of bytes comes back from the words that dsim_write_payload writes for it, when the loop
-- of dsim_read_data reads them one by one; and the words take as many bytes as the payload, aligned to 4.
pub payload_words-long_bytes :
    (bs : List ℕ)
    → Bytes bs
    → (long_bytes (length bs) (λ t. get_or (payload_words bs) t 0) 0 (length bs) ≡ bs)
      × (length (payload_words bs) * 4 ≡ align4 (length bs))
payload_words-long_bytes bs ok = (
  read_back (length bs) (λ t. get_or (payload_words bs) t 0) 0 bs (omega arith) ok
      (Gives-list (payload_words bs) (λ t. get_or (payload_words bs) t 0) 0
        (λ k.
          let at : 0 + k ≡ k = omega arith in ap (λ (i : ℕ). get_or (payload_words bs) i 0) at)),
  length_words bs,
)
