-- ===== src/Audio/Mp3Frame/Search.antt =====
-- What the parser and the search of bridges/audio/mp3_frame.c return.
use vita_arc.Base.{
  ℕ, zero, suc, ◌-◌, ◌≡◌, ◌≤◌, ◌<◌, inl, inr, Bool, true, false, not, ◌&&◌, ◌||◌, Option, none,
  some,
}
use vita_arc.Base.{
  List, [], ◌∷◌, ltb, ◌==◌, if◌then◌else◌, get_or, drop, take, arith, refl, Option-cases,
}
use mathlib.Core.Path.{subst}
use vita_arc.Base.{none≢some, sym, ap, ◌∙◌}
use mathlib.Core.Option.{some-injective}
use vita_arc.Audio.Mp3Frame.Defs.{
  Sdk, Frame, header_of, fields_ok, rate_of, size_of, channels_of, overhead_of, samples_of,
  version_field, parse, read_loop, read, rates, rate_field, layer_field, bitrate_field,
}
use Prim.Native.Nat.{bit_and}

rate_bound : (sdk : Sdk) (v k : ℕ) → k < 3 → 8000 ≤ rate_of sdk v (get_or rates k 0)
unfolding rate_of
rate_bound sdk v zero h = ground arith
rate_bound sdk v (suc zero) h = ground arith
rate_bound sdk v (suc (suc zero)) h = ground arith
rate_bound sdk v (suc (suc (suc k))) h = absurd (omega arith)

gate :
    (ok unfit : Bool) (r f : Frame)
    → (if not ok then none else if unfit then none else some r) ≡ some f
    → (ok ≡ true) × ((unfit ≡ false) × (r ≡ f))
gate false unfit r f e = absurd (none≢some f e)
gate true true r f e = absurd (none≢some f e)
gate true false r f e = (refl, (refl, some-injective r f e))

abbrev frame_of : Sdk → ℕ → Frame
frame_of sdk header = record {
  size = size_of sdk header;
  rate = rate_of sdk (version_field header) (get_or rates (rate_field header) 0);
  version = version_field header;
  channels = channels_of header;
  samples = samples_of sdk (version_field header);
  payload =
      if ltb (overhead_of sdk header) (size_of sdk header)
      then size_of sdk header - overhead_of sdk header
      else 0;
}

size_bounds : (s most : ℕ) → (ltb s 4 || ltb most s) ≡ false → (4 ≤ s) × (s ≤ most)
size_bounds s most h = ground arith

payload_bound :
    (s o most : ℕ) → 1 ≤ o → (ltb s 4 || ltb most s) ≡ false → (if ltb o s then s - o else 0) < s
payload_bound s o most k h = ground arith

overhead_positive : (sdk : Sdk) (header : ℕ) → 1 ≤ overhead_of sdk header
unfolding overhead_of
overhead_positive sdk header = omega arith

channels_bound : (header : ℕ) → (1 ≤ channels_of header) × (channels_of header ≤ 2)
unfolding channels_of
channels_bound header = ground arith

not_three : (a b c d : Bool) (r : ℕ) → (a && (b && not (c || (d || r == 3)))) ≡ true → r < 4 → r < 3
not_three a b c d r h k = ground arith

fields_ok-rate : (sdk : Sdk) (header : ℕ) → fields_ok sdk header ≡ true → rate_field header < 3
unfolding fields_ok
fields_ok-rate sdk header h =
    not_three (bit_and header 4292870144 == 4292870144)
      (not (version_field header == sdk.version_reserved || not (layer_field header == 1)))
      (bitrate_field header == 0) (bitrate_field header == 15) (rate_field header) h (omega arith)

-- A parsed frame has at least 4 bytes and no more than the decoder takes, its payload is smaller than it, it
-- has one or two channels, and its rate is 8000 or more, so that no division is by zero.
parse-bounds :
    (sdk : Sdk) (bytes : List ℕ) (f : Frame)
    → parse sdk bytes ≡ some f
    → ((4 ≤ f.size) × (f.size ≤ sdk.max_es_size))
      × ((f.payload < f.size) × (((1 ≤ f.channels) × (f.channels ≤ 2)) × (8000 ≤ f.rate)))
unfolding parse
parse-bounds sdk bytes f e =
    let (ok, (fits, g)) =
      gate (fields_ok sdk (header_of bytes))
        (ltb (size_of sdk (header_of bytes)) 4
          || ltb sdk.max_es_size (size_of sdk (header_of bytes)))
        (frame_of sdk (header_of bytes)) f e in
    subst
      (λ f.
        ((4 ≤ f.size) × (f.size ≤ sdk.max_es_size))
        × ((f.payload < f.size) × (((1 ≤ f.channels) × (f.channels ≤ 2)) × (8000 ≤ f.rate))))
      g
      (
        size_bounds (size_of sdk (header_of bytes)) sdk.max_es_size fits,
        (
          payload_bound (size_of sdk (header_of bytes)) (overhead_of sdk (header_of bytes))
              sdk.max_es_size (overhead_positive sdk (header_of bytes)) fits,
          (
            channels_bound (header_of bytes),
            rate_bound sdk (version_field (header_of bytes)) (rate_field (header_of bytes))
                (fields_ok-rate sdk (header_of bytes) ok),
          ),
        ),
      )

-- The bytes of the header at a place of the stream.
abbrev window : ℕ → List ℕ → List ℕ
window n stream = take 4 (drop n stream)

-- The search ends at the first place whose header parses.
abbrev pub IsFirst : Sdk → List ℕ → ℕ → List ℕ → Frame → List ℕ → Type 0
IsFirst sdk stream n header f rest =
    ((header ≡ window n stream) × (parse sdk header ≡ some f))
    × ((rest ≡ drop 4 (drop n stream)) × ((m : ℕ) → m < n → parse sdk (window m stream) ≡ none))

abbrev found : List ℕ → Frame → List ℕ → Option (List ℕ × (Frame × List ℕ))
found header f rest = some (header, (f, rest))

found_here :
    (sdk : Sdk) (a b c d : ℕ) (bytes header : List ℕ) (g f : Frame) (rest : List ℕ)
    → parse sdk (a ∷ b ∷ c ∷ d ∷ []) ≡ some g
    → found (a ∷ b ∷ c ∷ d ∷ []) g bytes ≡ found header f rest
    → IsFirst sdk (a ∷ b ∷ c ∷ d ∷ bytes) 0 header f rest
found_here sdk a b c d bytes header g f rest p e =
    let q = some-injective (a ∷ b ∷ c ∷ d ∷ [], (g, bytes)) (header, (f, rest)) e in
    (
      (
        sym (ap (λ t. t.0) q),
        ap (λ h. parse sdk h) (sym (ap (λ t. t.0) q)) ∙ p ∙ ap (λ t. some t.1.0) q,
      ),
      (sym (ap (λ t. t.1.1) q), λ m h. absurd (omega arith)),
    )

earlier :
    (sdk : Sdk) (n x : ℕ) (stream : List ℕ)
    → parse sdk (window 0 (x ∷ stream)) ≡ none
    → ((m : ℕ) → m < n → parse sdk (window m stream) ≡ none)
    → (m : ℕ) → m < suc n
    → parse sdk (window m (x ∷ stream)) ≡ none
earlier sdk n x stream p h zero k = p
earlier sdk n x stream p h (suc m) k = h m (omega arith)

read_loop-IsFirst :
    (sdk : Sdk) (a b c d : ℕ) (bytes header : List ℕ) (f : Frame) (rest : List ℕ)
    → read_loop sdk (a ∷ b ∷ c ∷ d ∷ []) bytes ≡ some (header, (f, rest))
    → (n : ℕ) × IsFirst sdk (a ∷ b ∷ c ∷ d ∷ bytes) n header f rest
unfolding read_loop
read_loop-IsFirst sdk a b c d [] header f rest e =
    elim (Option-cases (parse sdk (a ∷ b ∷ c ∷ d ∷ []))) [
      | inl p ↦ absurd (none≢some (header, (f, rest)) (sym (rw (read_loop, p) refl) ∙ e))
      | inr (g, p) ↦
          (0, found_here sdk a b c d [] header g f rest p (sym (rw (read_loop, p) refl) ∙ e))
    ]
read_loop-IsFirst sdk a b c d (x ∷ bytes) header f rest e =
    elim (Option-cases (parse sdk (a ∷ b ∷ c ∷ d ∷ []))) [
      | inl p ↦
          let (n, (q, (r, s))) =
            read_loop-IsFirst sdk b c d x bytes header f rest (sym (rw (read_loop, p) refl) ∙ e) in
          (suc n, (q, (r, earlier sdk n a (b ∷ c ∷ d ∷ x ∷ bytes) p s)))
      | inr (g, p) ↦ (
        0,
        found_here sdk a b c d (x ∷ bytes) header g f rest p (sym (rw (read_loop, p) refl) ∙ e),
      )
    ]

-- What the search returns is the first header in the stream that parses: the four bytes at a place before
-- which no four bytes parse, the frame they parse to, and the bytes behind them.
pub read-IsFirst :
    (sdk : Sdk) (stream header : List ℕ) (f : Frame) (rest : List ℕ)
    → read sdk stream ≡ some (header, (f, rest))
    → (n : ℕ) × IsFirst sdk stream n header f rest
unfolding read
read-IsFirst sdk [] header f rest e = cc
read-IsFirst sdk (a ∷ []) header f rest e = cc
read-IsFirst sdk (a ∷ b ∷ []) header f rest e = cc
read-IsFirst sdk (a ∷ b ∷ c ∷ []) header f rest e = cc
read-IsFirst sdk (a ∷ b ∷ c ∷ d ∷ bytes) header f rest e =
    read_loop-IsFirst sdk a b c d bytes header f rest e
