-- ===== src/Hash/Examples.antt =====
-- The theorems at a key of five bytes and at a string of two.
use postgres_v.Base.{ℕ, ◌+◌, ◌≡◌, arith}
use postgres_v.Hash.{tag_hash, remainder}
use postgres_v.Hash.Laws.{mix_all, chunks, tag_hash-chunks}

abbrev key : ℕ → ℕ
key p = 200 + p

tag_hash-chunks_example : tag_hash key 5 ≡ remainder 64 (mix_all 0 (chunks key 0 1 1))
tag_hash-chunks_example = tag_hash-chunks key 1 1 (omega arith)
