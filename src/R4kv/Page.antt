-- ===== src/R4kv/Page.antt =====
-- har/crates/r4kv/src/page.rs: the container of a page of the KV cache: its header of 96 bytes, the page as
-- packed with its checksums, and the test that a restored page is the one that is wanted.
pub mod Roundtrip
mod Tests
use remora_lab.Base.{
  zero, suc, ℕ, ◌+◌, ◌-◌, ◌*◌, String, Bool, true, false, Option, none, some, ◌==◌, ◌!=◌, ◌||◌, not,
  nat_eq, nat_beq, List, [], ◌∷◌, ◌++◌, length, if◌then◌else◌, ltb,
}
use remora_lab.R4kv.Crc32c.{crc32c}
use remora_lab.R4kv.Bytes.{le_bytes, of_le_bytes, take, drop, zeros, get, put, write}

pub data Fmt : Type 0 where
  f16 q8 q6 q4 q3 : Fmt

abbrev pub fmt_code : Fmt → ℕ
fmt_code f = elim f [ f16 ↦ 0 | q8 ↦ 1 | q6 ↦ 2 | q4 ↦ 3 | q3 ↦ 4 ]

unfoldable pub from_u8 : ℕ → Option Fmt
from_u8 v =
    if v == 0
    then some f16
    else if v == 1
    then some q8
    else if v == 2
    then some q6
    else if v == 3
    then some q4
    else if v == 4
    then some q3
    else none

pub record PageHeader : Type 0 where
  pub prefix_digest : ℕ
  pub token_start : ℕ
  pub token_count : ℕ
  pub pos_start : ℕ
  pub layer_lo : ℕ
  pub layer_hi : ℕ
  pub k_fmt : Fmt
  pub v_fmt : Fmt
  pub epoch : ℕ
  pub generation : ℕ
  pub payload_len : ℕ
  pub sketch_offset : ℕ
  pub flags : ℕ

pub record RestoreExpectation : Type 0 where
  pub prefix_digest : ℕ
  pub token_start : ℕ
  pub pos_start : ℕ
  pub layer_lo : ℕ
  pub layer_hi : ℕ
  pub k_fmt : Option Fmt
  pub v_fmt : Option Fmt
  pub generation : Option (ℕ → Bool)

pub data RestoreError : Type 0 where
  bad_magic bad_version header_checksum_mismatch payload_checksum_mismatch : RestoreError
  length_mismatch : (declared actual : ℕ) → RestoreError
  prefix_mismatch : (want got : ℕ) → RestoreError
  token_range_mismatch : (want_start got_start : ℕ) → RestoreError
  pos_mismatch : (want got : ℕ) → RestoreError
  layer_range_insufficient : (want got : ℕ × ℕ) → RestoreError
  format_refused : (field : String) → RestoreError
  generation_rejected : RestoreError

pub data Restored (A : Type 0) : Type 0 where
  ok : A → Restored A
  err : RestoreError → Restored A

infixl 5 ◌>>=◌ ◌>>◌
abbrev pub ◌>>=◌ : {A B : Type 0} → Restored A → (A → Restored B) → Restored B
ok a >>= f = f a
err e >>= f = err e

abbrev pub ◌>>◌ : {B : Type 0} → Restored (Unit {0}) → Restored B → Restored B
m >> k = m >>= λ _. k

abbrev pub refuse_if : Bool → RestoreError → Restored (Unit {0})
refuse_if test e = if test then err e else ok tt

abbrev pub magic : ℕ
magic = 0x52344B56

abbrev pub version : ℕ
version = 1

abbrev pub header_len : ℕ
header_len = 96

-- The header without its checksum.
unfoldable pub unsealed : PageHeader → List ℕ
unsealed h =
    let b₀ = put 4 0 magic (zeros 96) in
    let b₁ = put 2 4 version b₀ in
    let b₂ = put 2 6 h.flags b₁ in
    let b₃ = put 8 8 h.prefix_digest b₂ in
    let b₄ = put 4 16 h.token_start b₃ in
    let b₅ = put 4 20 h.token_count b₄ in
    let b₆ = put 4 24 h.pos_start b₅ in
    let b₇ = put 2 28 h.layer_lo b₆ in
    let b₈ = put 2 30 h.layer_hi b₇ in
    let b₉ = write 32 (fmt_code h.k_fmt ∷ []) b₈ in
    let c₀ = write 33 (fmt_code h.v_fmt ∷ []) b₉ in
    let c₁ = put 4 34 h.epoch c₀ in
    let c₂ = put 4 38 h.generation c₁ in
    let c₃ = put 8 42 h.payload_len c₂ in put 4 50 h.sketch_offset c₃

unfoldable pub to_bytes : PageHeader → List ℕ
unfolding unsealed
to_bytes h = put 4 92 (crc32c (take 92 (unsealed h))) (unsealed h)

abbrev pub wanted_fmt : Option Fmt → String → Restored Fmt
wanted_fmt none field = err (format_refused field)
wanted_fmt (some f) field = ok f

unfoldable pub from_bytes : List ℕ → Restored PageHeader
unfolding from_u8
from_bytes b = do
  refuse_if (get 4 0 b != magic) bad_magic
  refuse_if (get 2 4 b != version) bad_version
  refuse_if (crc32c (take 92 b) != get 4 92 b) header_checksum_mismatch
  k_fmt ← wanted_fmt (from_u8 (get 1 32 b)) "k_fmt"
  v_fmt ← wanted_fmt (from_u8 (get 1 33 b)) "v_fmt"
  ok (record {
    prefix_digest = get 8 8 b;
    token_start = get 4 16 b;
    token_count = get 4 20 b;
    pos_start = get 4 24 b;
    layer_lo = get 2 28 b;
    layer_hi = get 2 30 b;
    k_fmt = k_fmt;
    v_fmt = v_fmt;
    epoch = get 4 34 b;
    generation = get 4 38 b;
    payload_len = get 8 42 b;
    sketch_offset = get 4 50 b;
    flags = get 2 6 b;
  })

abbrev fmt_differs : Option Fmt → Fmt → Bool
fmt_differs none f = false
fmt_differs (some g) f = not (nat_beq (fmt_code g) (fmt_code f))

abbrev rejects : Option (ℕ → Bool) → ℕ → Bool
rejects none generation = false
rejects (some accepts) generation = not (accepts generation)

unfoldable pub check_restore :
    PageHeader → RestoreExpectation → (body : List ℕ) → Restored (Unit {0})
check_restore h e body = do
  refuse_if (length body != h.payload_len) (length_mismatch h.payload_len (length body))
  refuse_if (h.prefix_digest != e.prefix_digest) (prefix_mismatch e.prefix_digest h.prefix_digest)
  refuse_if (h.token_start != e.token_start) (token_range_mismatch e.token_start h.token_start)
  refuse_if (h.pos_start != e.pos_start) (pos_mismatch e.pos_start h.pos_start)
  refuse_if (ltb e.layer_lo h.layer_lo || ltb h.layer_hi e.layer_hi)
      (layer_range_insufficient (e.layer_lo, e.layer_hi) (h.layer_lo, h.layer_hi))
  refuse_if (fmt_differs e.k_fmt h.k_fmt) (format_refused "k_fmt")
  refuse_if (fmt_differs e.v_fmt h.v_fmt) (format_refused "v_fmt")
  refuse_if (rejects e.generation h.generation) generation_rejected

-- A release build: the assertion on the length is not made.
unfoldable pub pack_page : PageHeader → (body : List ℕ) → List ℕ
unfolding to_bytes
pack_page h body = to_bytes h ++ (body ++ le_bytes 4 (crc32c body))

unfoldable pub unpack_page : List ℕ → Restored (PageHeader × List ℕ)
unfolding from_bytes
unpack_page buf = do
  refuse_if (ltb (length buf) (header_len + 4)) (length_mismatch 0 (length buf))
  h ← from_bytes (take header_len buf)
  let body = take (length buf - 4 - header_len) (drop header_len buf)
  refuse_if (length body != h.payload_len) (length_mismatch h.payload_len (length body))
  refuse_if (crc32c body != get 4 (length buf - 4) buf) payload_checksum_mismatch
  ok (h, body)
