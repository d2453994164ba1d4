-- ===== src/Providers/Decoding.antt =====
-- The decoding of ticks by src/hqt/data/providers/dukascopy_provider.py.
use haru_quant_cbot.Prelude.{
  true, nat_beq, refl, ok, [], arith, ◌*◌, length, ◌∷◌, ◌≡◌, All, ◌%◌, ◌+◌, take, List, ◌/◌, ℕ, ◌<◌,
}
use haru_quant_cbot.Providers.Dukascopy.{
  Floats, Tick, unpack_u32, parse_tick, parse_ticks, parse_bi5,
}
use haru_quant_cbot.Hasher.{Bytes}

-- A tick as the server packs it: three numbers of 32 bits, and four bytes for each of two floats.
pub record Packed : Type 0 where
  pub milliseconds : ℕ
  pub ask_scaled : ℕ
  pub bid_scaled : ℕ
  pub ask_bytes : ℕ × ℕ × ℕ × ℕ
  pub bid_bytes : ℕ × ℕ × ℕ × ℕ

abbrev pub four : ℕ × ℕ × ℕ × ℕ → Bytes
four (a, b, c, d) = a ∷ b ∷ c ∷ d ∷ []

-- Twenty bytes, the numbers with their highest byte first, in front of the rest.
abbrev pub packed_before : Packed → Bytes → Bytes
packed_before p rest =
    p.milliseconds / 16777216 % 256
    ∷ p.milliseconds / 65536 % 256
    ∷ p.milliseconds / 256 % 256
    ∷ p.milliseconds % 256
    ∷ p.ask_scaled / 16777216 % 256
    ∷ p.ask_scaled / 65536 % 256
    ∷ p.ask_scaled / 256 % 256
    ∷ p.ask_scaled % 256
    ∷ p.bid_scaled / 16777216 % 256
    ∷ p.bid_scaled / 65536 % 256
    ∷ p.bid_scaled / 256 % 256
    ∷ p.bid_scaled % 256
    ∷ p.ask_bytes.0
    ∷ p.ask_bytes.1
    ∷ p.ask_bytes.2
    ∷ p.ask_bytes.3
    ∷ p.bid_bytes.0
    ∷ p.bid_bytes.1
    ∷ p.bid_bytes.2
    ∷ p.bid_bytes.3
    ∷ rest

abbrev pub packed : List Packed → Bytes
packed [] = []
packed (p ∷ ps) = packed_before p (packed ps)

unpack_u32-bytes :
    (n : ℕ)
    → n < 4294967296
    → unpack_u32 (n / 16777216 % 256) (n / 65536 % 256) (n / 256 % 256) (n % 256) ≡ n
unfolding unpack_u32
unpack_u32-bytes n h = omega arith

length-packed : (ps : List Packed) → length (packed ps) ≡ 20 * length ps
length-packed [] = refl
length-packed (p ∷ ps) = omega (arith, length-packed ps)

module _ {N : Type 0} (floats : Floats N) where
  -- The numbers fit their 32 bits and the floats are numbers of units.
  pub record IsPacked (p : Packed) : Type 0 where
    pub milliseconds_fit : p.milliseconds < 4294967296
    pub ask_fit : p.ask_scaled < 4294967296
    pub bid_fit : p.bid_scaled < 4294967296
    pub ask_units : (n : ℕ) × (floats.volume (four p.ask_bytes) ≡ ok n)
    pub bid_units : (n : ℕ) × (floats.volume (four p.bid_bytes) ≡ ok n)

  -- The tick that the bytes stand for.
  abbrev pub tick_of : ℕ → (p : Packed) → IsPacked p → Tick N
  tick_of hour p h = record {
    timestamp = hour + p.milliseconds * 1000;
    bid = floats.price p.bid_scaled;
    ask = floats.price p.ask_scaled;
    bid_volume = h.bid_units.0;
    ask_volume = h.ask_units.0;
  }

  abbrev pub ticks_of : ℕ → (ps : List Packed) → All IsPacked ps → List (Tick N)
  ticks_of hour [] h = []
  ticks_of hour (p ∷ ps) h = tick_of hour p h.0 ∷ ticks_of hour ps h.1

  parse_tick-packed :
      (hour : ℕ) (p : Packed) (h : IsPacked p) (rest : Bytes)
      → parse_tick floats hour (take 20 (packed_before p rest)) ≡ ok (tick_of hour p h)
  unfolding parse_tick
  parse_tick-packed hour p h rest =
      rw
        (
          unpack_u32-bytes p.milliseconds h.milliseconds_fit,
          unpack_u32-bytes p.ask_scaled h.ask_fit,
          unpack_u32-bytes p.bid_scaled h.bid_fit,
          h.ask_units.1,
          h.bid_units.1,
        )
        refl

  parse_ticks-packed :
      (hour : ℕ) (ps : List Packed) (h : All IsPacked ps)
      → parse_ticks floats (length ps) hour (packed ps) ≡ ok (ticks_of hour ps h)
  unfolding parse_ticks
  parse_ticks-packed hour [] h = refl
  parse_ticks-packed hour (p ∷ ps) h =
      rw (parse_tick-packed hour p h.0 (packed ps), parse_ticks-packed hour ps h.1) refl

  -- The bytes of packed ticks are decoded to exactly these ticks, in their order, with their times in
  -- microseconds from the hour on.
  pub parse_bi5-packed :
      (hour : ℕ) (ps : List Packed) (h : All IsPacked ps)
      → parse_bi5 floats (packed ps) hour ≡ ok (ticks_of hour ps h)
  unfolding parse_bi5
  parse_bi5-packed hour ps h =
      let whole : nat_beq (length (packed ps) % 20) 0 ≡ true = ground (arith, length-packed ps) in
      let number : length (packed ps) / 20 ≡ length ps = omega (arith, length-packed ps) in
      rw (whole, number) (parse_ticks-packed hour ps h)
