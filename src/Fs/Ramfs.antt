-- ===== src/Fs/Ramfs.antt =====
-- kernel/fs/ramfs/ramfs.c: the files of the file system in memory, whose bytes are in a list of pages
-- of 4096 bytes. A page is the function from an offset in it to the byte there. A file's position is
-- below 2 ^ 63 with the length of the transfer, so no sum wraps. The mapping of files is not in this
-- part.
pub mod Bytes
pub mod Reading
pub mod Writing
pub mod Growing
pub mod RoundTrip
mod Tests
use mathlib.Core.Option
use monolith.Prelude.{
  List, Option, [], if◌then◌else◌, length, ltb, none, some, suc, zero, ℕ, ◌%◌, ◌++◌, ◌+◌, ◌-◌, ◌==◌,
  ◌∷◌,
}
use monolith.Prelude.Words.{page_size}

-- `inode->data`, a list that is not null once it has a page, `inode->size` and `file->pos`
pub record RamFile : Type 0 where
  pub pages : List (ℕ → ℕ)
  pub size : ℕ
  pub pos : ℕ

-- The bytes from the offset `off` on, which `memcpy` copies.
unfoldable pub page_bytes : (ℕ → ℕ) → ℕ → ℕ → List ℕ
page_bytes page off zero = []
page_bytes page off (suc n) = page off ∷ page_bytes page (off + 1) n

-- how much is transferred in a page at the position `pos`
unfoldable pub amount_in : ℕ → ℕ → ℕ
amount_in pos length =
    if ltb length (page_size - pos % page_size) then length else page_size - pos % page_size

-- The walk to the page of the position. `none` is the answer -ENXIO.
unfoldable pub skip_pages : List (ℕ → ℕ) → ℕ → Option (List (ℕ → ℕ))
skip_pages [] rp = if ltb rp page_size then some [] else none
skip_pages (page ∷ rest) rp =
    let later = skip_pages rest (rp - page_size) in
    if ltb rp page_size then some (page ∷ rest) else later

-- The copying loop of `ramfs_read`, from a page on. `none`: it goes on behind the last page, where
-- the list's head is taken for a page.
unfoldable pub read_loop : List (ℕ → ℕ) → ℕ → ℕ → Option (List ℕ)
unfolding amount_in page_bytes
read_loop [] pos length = if length == 0 then some [] else none
read_loop (page ∷ rest) pos length =
    let amount = amount_in pos length in
    let later = read_loop rest (pos + amount) (length - amount) in
    if length == 0
    then some []
    else Option.map (λ bs. page_bytes page (pos % page_size) amount ++ bs) later

-- `no_page`: -ENXIO, with the lock of the vnode still held
pub data RamRead : Type 0 where
  no_page overrun : RamRead
  bytes_read : RamFile → List ℕ → RamRead

unfoldable pub ramfs_read : RamFile → ℕ → RamRead
ramfs_read f length = elim f.pages [
  | [] ↦ bytes_read f []
  | page ∷ rest ↦ elim (skip_pages (page ∷ rest) f.pos) [
    | none ↦ no_page
    | some from ↦ elim (read_loop from f.pos length) [
      | none ↦ overrun
      | some bs ↦ bytes_read (record f { pos = f.pos + length }) bs
    ]
  ]
]

-- The loop of `ramfs_write` that adds pages, on fuel; `fresh` is what is in a new page.
unfoldable pub grow_loop : ℕ → (ℕ → ℕ) → ℕ → RamFile → RamFile
grow_loop zero fresh req f = f
grow_loop (suc fuel) fresh req f =
    let f1 = record f { pages = f.pages ++ (fresh ∷ []); size = f.size + page_size } in
    let more = grow_loop fuel fresh (req - page_size) f1 in
    if req == 0 then f else if ltb req page_size then f1 else more

-- The page after the `memcpy` of `amount` bytes of the buffer, from `start` on, and the `memset`.
unfoldable pub write_page : (ℕ → ℕ) → ℕ → ℕ → (ℕ → ℕ) → ℕ → ℕ → ℕ
write_page page off amount buffer start i =
    if ltb i off then page i else if ltb i (off + amount) then buffer (start + (i - off)) else 0

-- The copying loop of `ramfs_write`, from a page on.
unfoldable pub write_loop : List (ℕ → ℕ) → ℕ → (ℕ → ℕ) → ℕ → ℕ → Option (List (ℕ → ℕ))
unfolding amount_in write_page
write_loop [] pos buffer start length = if length == 0 then some [] else none
write_loop (page ∷ rest) pos buffer start length =
    let amount = amount_in pos length in
    let later = write_loop rest (pos + amount) buffer (start + amount) (length - amount) in
    if length == 0
    then some (page ∷ rest)
    else Option.map (λ ps. write_page page (pos % page_size) amount buffer start ∷ ps) later

-- the walk to the page of the position, and the loop there
unfoldable pub write_at : List (ℕ → ℕ) → ℕ → ℕ → (ℕ → ℕ) → ℕ → Option (List (ℕ → ℕ))
unfolding write_loop
write_at [] wp pos buffer length =
    if ltb wp page_size then write_loop [] pos buffer 0 length else none
write_at (page ∷ rest) wp pos buffer length =
    let later = write_at rest (wp - page_size) pos buffer length in
    if ltb wp page_size
    then write_loop (page ∷ rest) pos buffer 0 length
    else Option.map (λ ps. page ∷ ps) later

-- `ramfs_write`; `none`: it goes on behind the last page, or, when nothing is written to a file
-- without pages, follows a null pointer.
unfoldable pub ramfs_write : (ℕ → ℕ) → RamFile → (ℕ → ℕ) → ℕ → Option RamFile
unfolding grow_loop
ramfs_write fresh f buffer count =
    let req = (f.pos + count) - f.size in
    let grown = grow_loop req fresh req f in
    let written =
      Option.map (λ ps. record grown { pages = ps; pos = f.pos + count })
        (write_at grown.pages f.pos f.pos buffer count) in
    if length grown.pages == 0 then none else written
