-- ===== src/Peer/Sha1/Streaming.antt =====
-- SHA1Update, by bytes that fill the buffer or do not, and the pieces of a message.
use s.Prelude.{
  ℕ, ◌+◌, ◌-◌, ◌*◌, ◌/◌, ◌≤◌, ◌≡◌, ◌∙◌, refl, sym, ap, ap₂, subst, inl, inr, Bool, true, false,
  List, [], ◌∷◌, ◌++◌, length, take, drop, length-append, length-take, length-drop, take-drop,
  append_assoc, append-nil, arith, ltb, Bool-cases, bit_and,
}
use s.Peer.Sha1.{
  u32, Words, Context, transform, initial_state, whole_blocks, init, copy_into, count_up,
  fill_and_go, update, feed,
}
use s.Peer.Sha1.Standard.{absorb}
use s.Peer.Sha1.Schedule.{transform-compress}
use s.Peer.Sha1.Blocks.{
  initial_state-IsWords, length-transform, transform-IsWords, absorb-append, absorb-one,
  absorb-IsWords, Taken, whole_blocks-Taken,
}
use s.Peer.Sha1.Holding.{
  Represents, copy_into-held, length-copy_into, copy_into-full, count_up-low, count_up-high, place,
  count_up-state, count_up-buffer, Represents-held,
}

-- Whole blocks taken in, with the rest copied to the front of the buffer.
Represents-Taken :
    (swap : Bool) (blocks : ℕ) (taken back : List ℕ) (result : Words × List ℕ) (c : Context)
    (buffer : List ℕ)
    → length taken ≡ blocks * 64
    → Taken swap (absorb swap blocks initial_state taken) back result
    → length buffer ≡ 64
    → c.count0 ≡ u32 (length (taken ++ back) * 8)
    → c.count1 ≡ u32 (length (taken ++ back) / 536870912)
    → Represents swap
        (taken ++ back)
        (record c { state = result.0; buffer = copy_into buffer 0 result.1 })
Represents-Taken swap blocks taken back result c buffer size t room low high = record {
  blocks = blocks + t.blocks;
  whole = taken ++ t.whole;
  held = result.1;
  splits = ap (λ m. taken ++ m) t.splits ∙ sym (append_assoc taken t.whole result.1);
  size = omega (arith, length-append taken t.whole, t.size);
  short = t.short;
  absorbed = t.absorbed ∙ sym (absorb-append swap blocks t.blocks initial_state taken t.whole size);
  in_buffer = copy_into-held buffer [] result.1 refl;
  room = length-copy_into buffer 0 result.1 room (omega (arith, t.short));
  low = low;
  high = high;
}

-- What fill_and_go leaves, for the block that it fills and the state it finds.
abbrev after_filling : Bool → ℕ → Context → List ℕ → Words → List ℕ → Context
after_filling swap j c bytes state block =
    let first = transform swap state block in
    let result = whole_blocks swap (length bytes) first.0 (drop (64 - j) bytes) in
    record c { state = result.0; buffer = copy_into first.1 0 result.1 }

fill_and_go-full :
    (swap : Bool) (j : ℕ) (c : Context) (bytes : List ℕ) (state : Words) (block : List ℕ)
    → c.state ≡ state
    → copy_into c.buffer j (take (64 - j) bytes) ≡ block
    → fill_and_go swap j c bytes ≡ after_filling swap j c bytes state block
fill_and_go-full swap j c bytes state block e f =
    unfold fill_and_go in ap₂ (λ s b. after_filling swap j c bytes s b) e f

regroup :
    (whole held bytes : List ℕ) (n : ℕ)
    → (whole ++ held) ++ bytes ≡ (whole ++ (held ++ take n bytes)) ++ drop n bytes
regroup whole held bytes n =
    append_assoc whole held bytes
    ∙ (ap (λ z. whole ++ (held ++ z)) (sym (take-drop n bytes))
        ∙ (ap (λ z. whole ++ z) (sym (append_assoc held (take n bytes) (drop n bytes)))
            ∙ sym (append_assoc whole (held ++ take n bytes) (drop n bytes))))

-- The first block, of the bytes held and the first of the new ones.
first_block :
    (swap : Bool) (message : List ℕ) (c : Context) (r : Represents swap message c) (front : List ℕ)
    → length r.held + length front ≡ 64
    → (transform swap c.state (r.held ++ front)).0
      ≡ absorb swap (r.blocks + 1) initial_state (r.whole ++ (r.held ++ front))
first_block swap message c r front len =
    let size : length (r.held ++ front) ≡ 64 = length-append r.held front ∙ len in
    let before = absorb swap r.blocks initial_state r.whole in
    ap (λ s. (transform swap s (r.held ++ front)).0) r.absorbed
    ∙ (transform-compress swap before (r.held ++ front)
          (absorb-IsWords swap r.blocks initial_state r.whole initial_state-IsWords) size
        ∙ (sym (absorb-one swap before (r.held ++ front) size)
            ∙ sym (absorb-append swap r.blocks 1 initial_state r.whole (r.held ++ front) r.size)))

-- Bytes that fill it.
Represents-filled :
    (swap : Bool) (message bytes : List ℕ) (c : Context) (r : Represents swap message c)
    → 64 ≤ length r.held + length bytes
    → Represents swap
        (message ++ bytes)
        (fill_and_go swap (length r.held) (count_up c (length bytes)) bytes)
Represents-filled swap message bytes c r h =
    let n = 64 - length r.held in
    let front = take n bytes in
    let back = drop n bytes in
    let len : length r.held + length front ≡ 64 = omega (arith, length-take n bytes, r.short) in
    let block = r.held ++ front in
    let taken = r.whole ++ block in
    let len' : length block ≡ 64 = length-append r.held front ∙ len in
    let counted = count_up c (length bytes) in
    let parts : message ++ bytes ≡ taken ++ back =
      ap (λ m. m ++ bytes) r.splits ∙ regroup r.whole r.held bytes n in
    let t : Taken swap (absorb swap (r.blocks + 1) initial_state taken) back
        (whole_blocks swap (length bytes) (transform swap c.state block).0 back) =
      subst
        (λ s.
          Taken swap s back
            (whole_blocks swap (length bytes) (transform swap c.state block).0 back))
        (first_block swap message c r front len)
        (whole_blocks-Taken swap (length bytes) (transform swap c.state block).0 back
          (transform-IsWords swap c.state block) (omega (arith, length-drop n bytes))) in
    let all =
      Represents-Taken swap (r.blocks + 1) taken back _ counted (transform swap c.state block).1
        (omega (arith, length-append r.whole block, r.size)) t
        (length-transform swap c.state block len')
        (count_up-low c (length message) (length bytes) r.low
          ∙ ap (λ k. u32 (k * 8)) (sym (length-append message bytes) ∙ ap length parts))
        (count_up-high c (length message) (length bytes) r.low r.high
          ∙ ap (λ k. u32 (k / 536870912)) (sym (length-append message bytes) ∙ ap length parts)) in
    let filled : copy_into counted.buffer (length r.held) front ≡ block =
      ap (λ b. copy_into b (length r.held) front) (count_up-buffer c (length bytes))
      ∙ copy_into-full c.buffer r.held front r.in_buffer r.room len in
    let same =
      fill_and_go-full swap (length r.held) counted bytes c.state block
        (count_up-state c (length bytes)) filled in
    subst (λ m. Represents swap m (fill_and_go swap (length r.held) counted bytes)) (sym parts)
      (subst (Represents swap (taken ++ back)) (sym same) all)

update-held :
    (swap : Bool) (c : Context) (bytes : List ℕ)
    → ltb 63 (bit_and (c.count0 / 8) 63 + length bytes) ≡ false
    → update swap c bytes ≡ record (count_up c (length bytes)) {
      buffer = copy_into c.buffer (bit_and (c.count0 / 8) 63) bytes;
    }
update-held swap c bytes e = unfold update in rw e

update-filled :
    (swap : Bool) (c : Context) (bytes : List ℕ)
    → ltb 63 (bit_and (c.count0 / 8) 63 + length bytes) ≡ true
    → update swap c bytes
      ≡ fill_and_go swap (bit_and (c.count0 / 8) 63) (count_up c (length bytes)) bytes
update-filled swap c bytes e = unfold update in rw e

-- Whatever bytes SHA1Update is given, the context stands for them behind those it stood for.
pub update-Represents :
    (swap : Bool) (message bytes : List ℕ) (c : Context)
    → Represents swap message c
    → Represents swap (message ++ bytes) (update swap c bytes)
update-Represents swap message bytes c r =
    let j = bit_and (c.count0 / 8) 63 in
    let at = place swap message c r in
    elim (Bool-cases (ltb 63 (j + length bytes))) [
      | inl e ↦
          subst (Represents swap (message ++ bytes))
            (sym (
              update-filled swap c bytes e
              ∙ ap (λ k. fill_and_go swap k (count_up c (length bytes)) bytes) at))
            (Represents-filled swap message bytes c r (ground arith))
      | inr e ↦
          subst (Represents swap (message ++ bytes))
            (sym (
              update-held swap c bytes e
              ∙ ap (λ k. record (count_up c (length bytes)) { buffer = copy_into c.buffer k bytes })
                  at))
            (Represents-held swap message bytes c r (ground arith))
    ]

pub init-Represents :
    (swap : Bool) (rest : List ℕ) → length rest ≡ 64 → Represents swap [] (init rest)
init-Represents swap rest e = record {
  blocks = 0;
  whole = [];
  held = [];
  splits = refl;
  size = refl;
  short = omega arith;
  absorbed = unfold init absorb in refl;
  in_buffer = refl;
  room = unfold init in e;
  low = unfold init in refl;
  high = unfold init in refl;
}

-- The bytes of all pieces.
abbrev pub joined : List (List ℕ) → List ℕ
joined [] = []
joined (p ∷ ps) = p ++ joined ps

pub feed-Represents :
    (swap : Bool) (pieces : List (List ℕ)) (message : List ℕ) (c : Context)
    → Represents swap message c
    → Represents swap (message ++ joined pieces) (feed swap c pieces)
unfolding feed
feed-Represents swap [] message c r = subst (λ m. Represents swap m c) (sym (append-nil message)) r
feed-Represents swap (p ∷ ps) message c r =
    subst (λ m. Represents swap m (feed swap (update swap c p) ps))
      (append_assoc message p (joined ps))
      (feed-Represents swap ps (message ++ p) (update swap c p)
        (update-Represents swap message p c r))
