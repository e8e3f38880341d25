-- ===== src/Net/Buffer.antt =====
-- src/net/common/tcp/buffer.cpp: a byte vector with a read and a write index, all uint64_t. `none` is an
-- access outside of the vector.
pub mod Queue
pub mod Chunks
use sheep_cpp.Base.{
  ℕ, zero, suc, ◌+◌, ◌-◌, ◌%◌, ◌^◌, Bool, Option, none, some, List, [], ◌∷◌, ◌++◌, if◌then◌else◌,
  ◌==◌, ltb, leb, length, take, drop, replicate,
}

pub record Buffer : Type 0 where
  pub read_index : ℕ
  pub write_index : ℕ
  pub buffer : List ℕ

abbrev pub u64 : ℕ
u64 = 2 ^ 64

infixl 5 ◌>>=◌
abbrev pub ◌>>=◌ {ℓ κ} : {A : Type ℓ} {B : Type κ} → Option A → (A → Option B) → Option B
none >>= f = none
some a >>= f = f a

unfoldable pub make_buffer : Buffer
make_buffer = record { read_index = 0; write_index = 0; buffer = replicate 1024 0 }

unfoldable pub reset : Buffer → Buffer
reset b = record { read_index = 0; write_index = 0; buffer = [] }

unfoldable pub write : List ℕ → Buffer → Option Buffer
write buf b =
    if leb b.write_index (length b.buffer)
    then some (record b {
      buffer = take b.write_index b.buffer ++ (buf ++ drop b.write_index b.buffer);
      write_index = (b.write_index + length buf) % u64;
    })
    else none

-- How many bytes `read` copies.
unfoldable pub clip : ℕ → Buffer → ℕ
clip len b =
    if ltb b.write_index ((b.read_index + len) % u64)
    then (b.write_index + u64 - b.read_index) % u64
    else len

unfoldable pub read : ℕ → Buffer → Option (List ℕ)
read len b =
    if b.read_index == b.write_index
    then some []
    else if leb (b.read_index + clip len b) (length b.buffer)
    then some (take (clip len b) (drop b.read_index b.buffer))
    else none

unfoldable pub update_read_index : ℕ → Buffer → Buffer
unfolding reset
update_read_index len b =
    let r = (b.read_index + len) % u64 in
    if r == b.write_index then reset b else record b { read_index = r }

unfoldable pub push : List ℕ → Buffer → Option Buffer
push buf b = write buf b

unfoldable pub pop_head : ℕ → Buffer → Option (List ℕ × Buffer)
pop_head len b = do bytes ← read len b; some (bytes, update_read_index (length bytes) b)
