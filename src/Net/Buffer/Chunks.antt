-- ===== src/Net/Buffer/Chunks.antt =====
-- PopHead of src/net/common/tcp/buffer.cpp in chunks of 1024 bytes, as the clients read.
use sheep_cpp.Base.{
  ℕ, ◌+◌, ◌%◌, ◌<◌, ◌≤◌, ◌≡◌, refl, sym, ap, ◌∙◌, subst, inl, inr, Option, none, some, List, length,
  take, drop, ◌==◌, Bool-cases, arith,
}
use sheep_cpp.Net.Buffer.{Buffer, u64, pop_head, update_read_index, reset}
use sheep_cpp.Net.Buffer.Queue.{Holds, read-Holds, pop_head-Holds}

pub write_index-update_read_index :
    (len : ℕ) (b : Buffer) → (update_read_index len b).write_index ≤ b.write_index
unfolding update_read_index reset
write_index-update_read_index len b =
    elim (Bool-cases ((b.read_index + len) % u64 == b.write_index)) [
      | inl e ↦ rw e (omega arith)
      | inr e ↦ rw e (omega arith)
    ]

abbrev pub rest : Buffer → List ℕ → Buffer
rest b c = update_read_index (length (take 1024 c)) b

pub pop_some :
    (b : Buffer) (c : List ℕ)
    → Holds b c
    → b.read_index + 1024 < u64
    → pop_head 1024 b ≡ some (take 1024 c, rest b c)
unfolding pop_head
pop_some b c h s = rw (read-Holds 1024 b c h s) refl

pub rest-Holds :
    (b : Buffer) (c : List ℕ)
    → Holds b c
    → b.read_index + 1024 < u64
    → Holds (rest b c) (drop 1024 c)
rest-Holds b c v s =
    let (b', e, w) = pop_head-Holds 1024 b c v s in
    let q = sym e ∙ pop_some b c v s in subst (λ z. Holds z (drop 1024 c)) (ap buffer_of q) w
  where
    buffer_of : Option (List ℕ × Buffer) → Buffer
    buffer_of none = rest b c
    buffer_of (some z) = z.1

pub fits :
    (b : Buffer) (c : List ℕ) → Holds b c → b.write_index + 1024 < u64 → b.read_index + 1024 < u64
fits b c v s = let w = v.at_write in omega (arith, w, s)
