-- ===== src/Ring.antt =====
-- The circular buffer of OutputBuffer (src/OutputBuffer.h, src/OutputBuffer.cpp): the fields that
-- hold the bytes, and the private methods that move them. Numbers are `size_t`, so sums and
-- differences wrap at 2 ^ 64; a fault (see Memory) is `none`.
pub mod Contents
pub mod Store
pub mod Write
pub mod Expand
pub mod Appended
pub mod Overwrite
pub mod Read
use ml_gridengine_executor.Base.{
  ℕ, ◌*◌, ◌%◌, List, Option, some, min, max, ltb, leb, ◌&&◌, ◌>>=◌, if◌then◌else◌, length, drop,
  add64, sub64, word, ◌++◌, [],
}
use ml_gridengine_executor.Memory.{load, memcpy, rem}

pub record Ring : Type 0 where
  pub buffer : List ℕ
  pub capacity : ℕ
  pub max_capacity : ℕ
  pub size : ℕ
  pub head : ℕ
  pub written_bytes : ℕ

-- The copying of `_circularWrite`: `n` bytes to index `tail`, `right` bytes before the end, in one
-- memcpy or in two.
unfoldable pub copy_in : List ℕ → ℕ → ℕ → List ℕ → ℕ → Option (List ℕ)
copy_in buf tail right bytes n =
    if leb n right
    then memcpy buf tail bytes n
    else (memcpy buf tail bytes right >>= λ b. memcpy b 0 (drop right bytes) (sub64 n right))

-- The copying of `_circularRead`: `n` bytes from index `front`.
unfoldable pub copy_out : List ℕ → ℕ → ℕ → ℕ → Option (List ℕ)
copy_out buf front right n =
    if leb n right
    then load (drop front buf) n
    else (do xs ← load (drop front buf) right; ys ← load buf (sub64 n right); some (xs ++ ys))

-- `_circularWrite(data, count)` with `count` the length of `data`: the number of bytes written, and
-- the ring after it.
unfoldable pub circular_write : Ring → List ℕ → Option (ℕ × Ring)
circular_write r bytes = do
  let room = sub64 r.capacity r.size
  let n = min (length bytes) room
  tail ← rem (add64 r.head r.size) r.capacity
  let right = sub64 r.capacity tail
  buf ← copy_in r.buffer tail right bytes n
  some (n, record r { buffer = buf; size = add64 r.size n })

-- `_circularRead(target, count, start)`: the bytes copied to `target`; their number is returned.
unfoldable pub circular_read : Ring → ℕ → ℕ → Option (List ℕ)
circular_read r count start =
    if ltb start r.size
    then (do
      let n = min count (sub64 r.size start)
      front ← rem (add64 r.head start) r.capacity
      let right = sub64 r.capacity front
      copy_out r.buffer front right n)
    else some []

-- The copying of `_expandBuffer`: the bytes held, to the start of the new allocation.
unfoldable pub copy_all : List ℕ → Ring → Option (List ℕ)
copy_all fresh r =
    let right : ℕ = sub64 r.capacity r.head in
    if ltb r.capacity (add64 r.head r.size)
    then (memcpy fresh 0 (drop r.head r.buffer) right >>= λ b.
        memcpy b right r.buffer (sub64 r.size right))
    else memcpy fresh 0 (drop r.head r.buffer) r.size

-- The second half of `_overwrite`, once the capacity is what it will be: the number of bytes
-- overwritten and the ring, `_writtenBytes` included.
unfoldable pub overwrite_within : Ring → List ℕ → Option (ℕ × Ring)
overwrite_within r bytes =
    let count : ℕ = length bytes in
    let preserve : ℕ = sub64 r.capacity count in
    let lost : ℕ = sub64 r.size preserve in
    if leb r.capacity count
    then (do
      (n, r') ← circular_write (record r { size = 0 }) (drop (sub64 count r.capacity) bytes)
      some (
        add64 r.size (sub64 count r.capacity),
        record r' { written_bytes = add64 r'.written_bytes count },
      ))
    else if ltb preserve r.size
    then (do
      head ← rem (add64 r.head lost) r.capacity
      (n, r') ← circular_write (record r { size = sub64 r.size lost; head = head }) bytes
      some (lost, record r' { written_bytes = add64 r'.written_bytes count }))
    else (do
      (n, r') ← circular_write r bytes
      some (0, record r' { written_bytes = add64 r'.written_bytes count }))

-- `malloc n` returns an allocation of `n` bytes of whatever content.
module _ (malloc : ℕ → List ℕ) where
  -- `_expandBuffer(desiredCapacity)`
  unfoldable pub expand_buffer : Ring → ℕ → Option Ring
  expand_buffer r desired =
      let new_capacity : ℕ = min (max (r.capacity * 2 % word) desired) r.max_capacity in
      if ltb r.capacity new_capacity
      then (do
        let fresh = malloc new_capacity
        buf ← copy_all fresh r
        some (record r { buffer = buf; capacity = new_capacity; head = 0 }))
      else some r

  -- `_overwrite(data, count)`
  unfoldable pub overwrite : Ring → List ℕ → Option (ℕ × Ring)
  unfolding expand_buffer overwrite_within
  overwrite r bytes =
      let desired : ℕ = add64 r.size (length bytes) in
      (if ltb r.capacity desired && ltb r.capacity r.max_capacity
        then expand_buffer r desired
        else some r)
      >>= λ r'. overwrite_within r' bytes
