-- ===== src/Fs/Ramfs/Tests.antt =====
-- Files in memory at concrete numbers.
use mathlib.Core.Option
use monolith.Fs.Ramfs.{
  RamFile, amount_in, bytes_read, grow_loop, overrun, ramfs_read, ramfs_write, write_at, write_loop,
  write_page,
}
use monolith.Fs.Ramfs.Bytes.{bytes_from, contents}
use monolith.Fs.Ramfs.Reading.{ramfs_read-overruns}
use monolith.Fs.Ramfs.RoundTrip.{buffer_bytes, ramfs_read-write, ramfs_write-clears}
use monolith.Prelude.{[], arith, length, refl, some, ℕ, ◌*◌, ◌+◌, ◌<◌, ◌∷◌, ◌≡◌}
use monolith.Prelude.Words.{page_size}

-- a file of one page of sevens, at its third byte; new pages hold nines
abbrev one_page : RamFile
one_page = record { pages = (λ _. 7) ∷ []; size = 4096; pos = 2 }

abbrev nines : ℕ → ℕ
nines _ = 9

abbrev digits_of : ℕ → ℕ
digits_of i = 100 + i

-- two bytes, and the byte behind them
written_two :
    Option.map (λ (f : RamFile). bytes_from f.pages 0 6) (ramfs_write nines one_page digits_of 2)
    ≡ some (7 ∷ 7 ∷ 100 ∷ 101 ∷ 0 ∷ 0 ∷ [])
unfolding ramfs_write grow_loop write_at write_loop amount_in write_page
written_two = refl

ramfs_read-write_example :
    (f' : RamFile) × (ramfs_write nines one_page digits_of 5000 ≡ some f')
    × (f'.pos ≡ 2 + 5000)
    × (f'.size ≡ page_size * length f'.pages)
    × ((i : ℕ) → i < 2 → contents f'.pages i ≡ contents one_page.pages i)
    × (ramfs_read (record f' { pos = 2 }) 5000 ≡ bytes_read f' (buffer_bytes digits_of 0 5000))
ramfs_read-write_example =
    ramfs_read-write nines one_page digits_of 5000 refl (omega arith) (omega arith)

ramfs_write-clears_runs :
    (f' : RamFile) × (ramfs_write nines one_page digits_of 2 ≡ some f') × (contents f'.pages 4 ≡ 0)
ramfs_write-clears_runs =
    ramfs_write-clears nines one_page digits_of 2 4 refl (omega arith) (omega arith) (omega arith)
      refl

ramfs_read-overruns_runs : ramfs_read one_page 5000 ≡ overrun
ramfs_read-overruns_runs =
    ramfs_read-overruns one_page 5000 (omega arith) (omega arith) (omega arith)
