-- ===== src/Peer/Sha1/Holding.antt =====
-- A context and the bytes that it stands for: its count, and bytes held in its buffer.
use s.Prelude.{
  ℕ, ◌+◌, ◌*◌, ◌/◌, ◌≤◌, ◌<◌, ◌≡◌, ◌∙◌, refl, sym, ap, ap₂, Bool, List, ◌++◌, length, take, drop,
  length-append, length-take, length-drop, take-append, drop-all, append_assoc, append-nil, arith,
  bit_and,
}
use s.Bits.{bit_and-63}
use s.Peer.Sha1.{u32, Context, initial_state, copy_into, count_up}
use s.Peer.Sha1.Standard.{absorb}

-- The context after the bytes of `message`: whole blocks are in the state, the rest is in the
-- buffer, and the count is the number of bits, modulo 2 ^ 64.
pub record Represents (swap : Bool) (message : List ℕ) (c : Context) : Type 0 where
  pub blocks : ℕ
  pub whole : List ℕ
  pub held : List ℕ
  pub splits : message ≡ whole ++ held
  pub size : length whole ≡ blocks * 64
  pub short : length held < 64
  pub absorbed : c.state ≡ absorb swap blocks initial_state whole
  pub in_buffer : take (length held) c.buffer ≡ held
  pub room : length c.buffer ≡ 64
  pub low : c.count0 ≡ u32 (length message * 8)
  pub high : c.count1 ≡ u32 (length message / 536870912)

pub copy_into-held :
    (buffer held bytes : List ℕ)
    → take (length held) buffer ≡ held
    → take (length (held ++ bytes)) (copy_into buffer (length held) bytes) ≡ held ++ bytes
copy_into-held buffer held bytes e =
    unfold copy_into in
    ap
      (λ p.
        take (length (held ++ bytes)) (p ++ (bytes ++ drop (length held + length bytes) buffer)))
      e
    ∙ (ap (take (length (held ++ bytes)))
          (sym (append_assoc held bytes (drop (length held + length bytes) buffer)))
        ∙ take-append (length (held ++ bytes)) (held ++ bytes) _ refl)

pub length-copy_into :
    (buffer : List ℕ) (j : ℕ) (bytes : List ℕ)
    → length buffer ≡ 64
    → j + length bytes ≤ 64
    → length (copy_into buffer j bytes) ≡ 64
length-copy_into buffer j bytes e h =
    unfold copy_into in
    omega (
      arith,
      length-append (take j buffer) (bytes ++ drop (j + length bytes) buffer),
      length-append bytes (drop (j + length bytes) buffer),
      length-take j buffer,
      length-drop (j + length bytes) buffer,
    )

pub copy_into-full :
    (buffer held bytes : List ℕ)
    → take (length held) buffer ≡ held
    → length buffer ≡ 64
    → length held + length bytes ≡ 64
    → copy_into buffer (length held) bytes ≡ held ++ bytes
copy_into-full buffer held bytes e len full =
    unfold copy_into in
    ap₂ (λ p q. p ++ (bytes ++ q)) e (drop-all (length held + length bytes) buffer (omega arith))
    ∙ ap (λ q. held ++ q) (append-nil bytes)

-- The count in the context, and the place in the buffer that it tells.
pub count_up-low :
    (c : Context) (n len : ℕ)
    → c.count0 ≡ u32 (n * 8)
    → (count_up c len).count0 ≡ u32 ((n + len) * 8)
count_up-low c n len e = unfold count_up in omega arith

pub count_up-high :
    (c : Context) (n len : ℕ)
    → c.count0 ≡ u32 (n * 8)
    → c.count1 ≡ u32 (n / 536870912)
    → (count_up c len).count1 ≡ u32 ((n + len) / 536870912)
count_up-high c n len e h = unfold count_up in ground arith

pub place :
    (swap : Bool) (message : List ℕ) (c : Context) (r : Represents swap message c)
    → bit_and (c.count0 / 8) 63 ≡ length r.held
place swap message c r = omega (
  arith,
  bit_and-63 (c.count0 / 8),
  r.low,
  r.size,
  r.short,
  length-append r.whole r.held,
  ap length r.splits,
)

pub count_up-state : (c : Context) (len : ℕ) → (count_up c len).state ≡ c.state
count_up-state c len = unfold count_up in refl

pub count_up-buffer : (c : Context) (len : ℕ) → (count_up c len).buffer ≡ c.buffer
count_up-buffer c len = unfold count_up in refl

-- Bytes that do not fill the buffer.
pub Represents-held :
    (swap : Bool) (message bytes : List ℕ) (c : Context) (r : Represents swap message c)
    → length r.held + length bytes < 64
    → Represents swap
        (message ++ bytes)
        (record (count_up c (length bytes)) { buffer = copy_into c.buffer (length r.held) bytes })
Represents-held swap message bytes c r h = record {
  blocks = r.blocks;
  whole = r.whole;
  held = r.held ++ bytes;
  splits = ap (λ m. m ++ bytes) r.splits ∙ append_assoc r.whole r.held bytes;
  size = r.size;
  short = omega (arith, length-append r.held bytes);
  absorbed = count_up-state c (length bytes) ∙ r.absorbed;
  in_buffer = copy_into-held c.buffer r.held bytes r.in_buffer;
  room = length-copy_into c.buffer (length r.held) bytes r.room (omega arith);
  low =
      count_up-low c (length message) (length bytes) r.low
      ∙ ap (λ n. u32 (n * 8)) (sym (length-append message bytes));
  high =
      count_up-high c (length message) (length bytes) r.low r.high
      ∙ ap (λ n. u32 (n / 536870912)) (sym (length-append message bytes));
}
