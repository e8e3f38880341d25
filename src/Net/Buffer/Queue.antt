-- ===== src/Net/Buffer/Queue.antt =====
-- The bytes that wait in a buffer of src/net/common/tcp/buffer.cpp.
use mathlib.Core.List.{append_assoc}
use sheep_cpp.Base.{
  ℕ, zero, suc, ◌+◌, ◌%◌, ◌<◌, ◌≤◌, ◌≡◌, ◌⊎◌, refl, sym, ap, ◌∙◌, subst, inl, inr, some, List, [],
  ◌∷◌, ◌++◌, ◌==◌, ltb, length, take, drop, take_at, drop_at, take-append_le, take-all, drop-all,
  length-append, length-take, length-drop, take-append-drop, replicate, Bool-cases, arith,
}
use sheep_cpp.Net.Buffer.{
  Buffer, u64, make_buffer, reset, write, clip, read, update_read_index, push, pop_head,
}

-- The bytes `c` wait in the buffer, between what was read and what the vector has behind them.
pub record Holds (b : Buffer) (c : List ℕ) : Type 0 where
  pub done : List ℕ
  pub spare : List ℕ
  pub layout : b.buffer ≡ done ++ (c ++ spare)
  pub at_read : length done ≡ b.read_index
  pub at_write : b.read_index + length c ≡ b.write_index
  pub small : b.write_index < u64

pub make_buffer-Holds : Holds make_buffer []
unfolding make_buffer
make_buffer-Holds = record {
  done = [];
  spare = replicate 1024 0;
  layout = refl;
  at_read = refl;
  at_write = refl;
  small = omega arith;
}

pub reset-Holds : (b : Buffer) → Holds (reset b) []
unfolding reset
reset-Holds b = record {
  done = [];
  spare = [];
  layout = refl;
  at_read = refl;
  at_write = refl;
  small = omega arith;
}

fits_write : (b : Buffer) (c : List ℕ) → Holds b c → b.write_index ≤ length b.buffer
fits_write b c h =
    omega (arith, ap length h.layout, length-append h.done (c ++ h.spare), length-append c h.spare)

-- Where a buffer holds the bytes c and the write index plus the length stays below 2^64, Push
-- succeeds, the pushed bytes come behind c, and the write index moves by their number.
pub push-Holds :
    (buf : List ℕ) (b : Buffer) (c : List ℕ)
    → Holds b c
    → b.write_index + length buf < u64
    → (b' : Buffer) × (push buf b ≡ some b')
      × Holds b' (c ++ buf)
      × (b'.write_index ≡ b.write_index + length buf)
unfolding push write
push-Holds buf b c h s = (
  record b {
    buffer = take b.write_index b.buffer ++ (buf ++ drop b.write_index b.buffer);
    write_index = (b.write_index + length buf) % u64;
  },
  ground (arith, fits_write b c h),
  record {
    done = h.done;
    spare = h.spare;
    layout =
        rw
          (
            split,
            take_at b.write_index (h.done ++ c) h.spare full,
            drop_at b.write_index (h.done ++ c) h.spare full,
          )
          (simp append_assoc);
    at_read = h.at_read;
    at_write = omega (arith, h.at_write, length-append c buf);
    small = omega arith;
  },
  omega arith,
)
  where
    split : b.buffer ≡ (h.done ++ c) ++ h.spare
    split = h.layout ∙ sym (append_assoc h.done c h.spare)

    full : b.write_index ≡ length (h.done ++ c)
    full = omega (arith, length-append h.done c, h.at_read, h.at_write)

-- `read` copies what was asked for, or all there is.
clip-Holds :
    (len : ℕ) (b : Buffer) (c : List ℕ)
    → Holds b c
    → b.read_index + len < u64
    → ((clip len b ≡ len) × (len ≤ length c)) ⊎ ((clip len b ≡ length c) × (length c < len))
unfolding clip
clip-Holds len b c h s = elim (Bool-cases (ltb b.write_index ((b.read_index + len) % u64))) [
  | inl e ↦ inr (ground (arith, h.at_write, h.small), ground (arith, h.at_write, h.small))
  | inr e ↦ inl (ground (arith, h.at_write, h.small), ground (arith, h.at_write, h.small))
]

clipped-Holds :
    (len : ℕ) (b : Buffer) (c : List ℕ)
    → Holds b c
    → b.read_index + len < u64
    → (take (clip len b) (drop b.read_index b.buffer) ≡ take len c)
      × (b.read_index + clip len b ≤ length b.buffer)
unfolding clip
clipped-Holds len b c h s =
    rw (h.layout, drop_at b.read_index h.done (c ++ h.spare) (sym h.at_read))
      (elim (clip-Holds len b c h s) [
        | inl (e, l) ↦ rw e (take-append_le len c h.spare l, room len l)
        | inr (e, l) ↦ rw e (
          take_at (length c) c h.spare refl ∙ sym (take-all len c (omega arith)),
          room (length c) (omega arith),
        )
      ])
  where
    room : (k : ℕ) → k ≤ length c → b.read_index + k ≤ length (h.done ++ (c ++ h.spare))
    room k l =
        omega (arith, h.at_read, length-append h.done (c ++ h.spare), length-append c h.spare)

pub read-Holds :
    (len : ℕ) (b : Buffer) (c : List ℕ)
    → Holds b c
    → b.read_index + len < u64
    → read len b ≡ some (take len c)
unfolding read
read-Holds len b c h s = elim (Bool-cases (b.read_index == b.write_index)) [
  | inl e ↦
      let z : length c ≡ 0 = ground (arith, h.at_write) in
      rw e (ap (λ l. some l) (sym (nothing c z)))
  | inr e ↦ let (f, g) = clipped-Holds len b c h s in ground (arith, f, g)
]
  where
    nothing : (l : List ℕ) → length l ≡ 0 → take len l ≡ []
    nothing [] z = take-all len [] (omega arith)
    nothing (x ∷ l) z = absurd (omega arith)

-- Moving the read index by at most what waits drops as many bytes; what is empty starts anew.
pub update_read_index-Holds :
    (len : ℕ) (b : Buffer) (c : List ℕ)
    → Holds b c
    → len ≤ length c
    → Holds (update_read_index len b) (drop len c)
unfolding update_read_index
update_read_index-Holds len b c h l =
    elim (Bool-cases ((b.read_index + len) % u64 == b.write_index)) [
      | inl e ↦ rw (e, drop-all len c (ground (arith, h.at_write, h.small))) (reset-Holds b)
      | inr e ↦ rw e record {
        done = h.done ++ take len c;
        spare = h.spare;
        layout =
            h.layout
            ∙ ap (λ (k : List ℕ). h.done ++ (k ++ h.spare)) (sym (take-append-drop len c))
            ∙ simp append_assoc;
        at_read = omega (
          arith,
          length-append h.done (take len c),
          length-take len c,
          h.at_read,
          h.at_write,
          h.small,
        );
        at_write = omega (arith, length-drop len c, h.at_write, h.small);
        small = h.small;
      }
    ]

-- Where a buffer holds the bytes c and the read index plus the length stays below 2^64, PopHead
-- yields the oldest bytes, as many as asked for or all there are, and the buffer then holds the
-- others.
pub pop_head-Holds :
    (len : ℕ) (b : Buffer) (c : List ℕ)
    → Holds b c
    → b.read_index + len < u64
    → (b' : Buffer) × (pop_head len b ≡ some (take len c, b')) × Holds b' (drop len c)
unfolding pop_head
pop_head-Holds len b c h s = (
  update_read_index (length (take len c)) b,
  rw (read-Holds len b c h s) refl,
  subst (Holds (update_read_index (length (take len c)) b)) (drop_taken len c)
      (update_read_index-Holds (length (take len c)) b c h (omega (arith, length-take len c))),
)
  where
    drop_taken : (n : ℕ) (l : List ℕ) → drop (length (take n l)) l ≡ drop n l
    drop_taken zero l = refl
    drop_taken (suc n) [] = refl
    drop_taken (suc n) (x ∷ l) = drop_taken n l
