-- ===== src/Hash.antt =====
-- The hash functions of src/backend/utils/hash/hashfn.c.
--
-- An `int` or a `long` is its bits, a number below 2 ^ 32 or 2 ^ 64, in two's complement; products
-- wrap around. A key is the bytes in memory from its address on; words are little-endian, `char` is
-- signed.
pub mod Laws
pub mod Examples
use postgres_v.Base.{
  ℕ, zero, suc, ◌+◌, ◌-◌, ◌*◌, ◌/◌, ◌%◌, ◌^◌, Bool, true, false, Option, none, some, List, [], ◌∷◌,
  ltb, leb, ◌==◌, if◌then◌else◌,
}

abbrev pub prime1 : ℕ
prime1 = 37

abbrev pub prime2 : ℕ
prime2 = 1048583

-- `a ^ b` on `width` bits
pub xor : (width a b : ℕ) → ℕ
xor zero a b = 0
xor (suc width) a b = (a + b) % 2 + 2 * xor width (a / 2) (b / 2)

-- the conversion to a wider signed type
abbrev pub sign_extend : (from to x : ℕ) → ℕ
sign_extend from to x = if ltb x (2 ^ (from - 1)) then x else x + 2 ^ to - 2 ^ from

-- `h % PRIME2`, which has the sign of `h`
abbrev pub remainder : (width h : ℕ) → ℕ
remainder width h =
    if ltb h (2 ^ (width - 1))
    then h % prime2
    else (2 ^ width - (2 ^ width - h) % prime2) % 2 ^ width

-- The loop over the bytes up to the NUL; `none` when it runs past the memory.
pub string_loop : (h : ℕ) → List ℕ → Option ℕ
unfolding xor
string_loop h [] = none
string_loop h (b ∷ k) =
    let rest = string_loop (xor 32 (h * prime1 % 2 ^ 32) ((b + 2 ^ 32 - 32) % 2 ^ 32)) k in
    if b == 0 then some h else rest

pub string_hash : (key : List ℕ) → (keysize : ℕ) → Option ℕ
unfolding string_loop
string_hash key keysize = elim (string_loop 0 key) [
  | none ↦ none
  | some h ↦ some (sign_extend 32 64 (remainder 32 h))
]

-- `*key` for an `int *` and for a `char *` at the address `p`, as a `long`
abbrev pub int_at : (ℕ → ℕ) → ℕ → ℕ
int_at key p =
    sign_extend 32 64 (key p + 256 * key (p + 1) + 65536 * key (p + 2) + 16777216 * key (p + 3))

abbrev pub char_at : (ℕ → ℕ) → ℕ → ℕ
char_at key p = sign_extend 8 64 (key p)

-- `h = h * PRIME1 ^ x`
pub mix : (h x : ℕ) → ℕ
unfolding xor
mix h x = xor 64 (h * prime1 % 2 ^ 64) x

-- the loop of the default case: the hash, the address and the size behind it
pub word_loop : (rounds : ℕ) → (ℕ → ℕ) → (h p keysize : ℕ) → ℕ × ℕ × ℕ
unfolding mix
word_loop zero key h p keysize = (h, p, keysize)
word_loop (suc rounds) key h p keysize =
    let rest = word_loop rounds key (mix h (int_at key p)) (p + 4) (keysize - 4) in
    if leb 4 keysize then rest else (h, p, keysize)

-- the inner switch, for the last few bytes
pub tail_switch : (ℕ → ℕ) → (h p keysize : ℕ) → ℕ
unfolding mix
tail_switch key h p keysize =
    if keysize == 3
    then mix (mix (mix h (char_at key p)) (char_at key (p + 1))) (char_at key (p + 2))
    else (if keysize == 2
        then mix (mix h (char_at key p)) (char_at key (p + 1))
        else (if keysize == 1 then mix h (char_at key p) else h))

-- The rounds suffice: each takes four bytes of the key.
pub default_case : (ℕ → ℕ) → (keysize : ℕ) → ℕ
unfolding word_loop tail_switch
default_case key keysize =
    let (h, p, left) = word_loop keysize key 0 0 keysize in tail_switch key h p left

-- the cases that fall through, from the last one up
pub one_word : (ℕ → ℕ) → (h p : ℕ) → ℕ
unfolding mix
one_word key h p = mix h (int_at key p)

pub two_words : (ℕ → ℕ) → (h p : ℕ) → ℕ
unfolding one_word
two_words key h p = one_word key (mix h (int_at key p)) (p + 4)

pub three_words : (ℕ → ℕ) → (h p : ℕ) → ℕ
unfolding two_words
three_words key h p = two_words key (mix h (int_at key p)) (p + 4)

pub four_words : (ℕ → ℕ) → (h p : ℕ) → ℕ
unfolding three_words
four_words key h p = three_words key (mix h (int_at key p)) (p + 4)

pub five_words : (ℕ → ℕ) → (h p : ℕ) → ℕ
unfolding four_words
five_words key h p = four_words key (mix h (int_at key p)) (p + 4)

pub six_words : (ℕ → ℕ) → (h p : ℕ) → ℕ
unfolding five_words
six_words key h p = five_words key (mix h (int_at key p)) (p + 4)

pub tag_switch : (ℕ → ℕ) → (keysize : ℕ) → ℕ
unfolding six_words default_case
tag_switch key keysize =
    if keysize == 24
    then six_words key 0 0
    else if keysize == 20
    then five_words key 0 0
    else if keysize == 16
    then four_words key 0 0
    else if keysize == 12
    then three_words key 0 0
    else if keysize == 8
    then two_words key 0 0
    else if keysize == 4
    then one_word key 0 0
    else default_case key keysize

pub tag_hash : (key : ℕ → ℕ) → (keysize : ℕ) → ℕ
unfolding tag_switch
tag_hash key keysize = remainder 64 (tag_switch key keysize)
