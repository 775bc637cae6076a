-- ===== src/Residency/Types.antt =====
-- har/crates/har-residency/src/types.rs: the identities of pages, their representations and the
-- places where a page can be.
use remora_lab.Base.{
  ℕ, ◌≡◌, ◌↔◌, refl, String, Bool, true, Option, ◌==◌, ◌&&◌, nat_eq, string_eq, nat_beq, PartialEq,
  arith, pair_eq, false, nth_or, eq_by_code, ◌∷◌, [],
}

pub data PageKind : Type 0 where
  weights kv : PageKind

abbrev pub kind_index : PageKind → ℕ
kind_index weights = 0
kind_index kv = 1

pub record PageId : Type 0 where
  pub model_root : String
  pub kind : PageKind
  pub ordinal : ℕ

abbrev pub page_beq : PageId → PageId → Bool
page_beq a b =
    a.model_root == b.model_root
    && (nat_beq (kind_index a.kind) (kind_index b.kind) && a.ordinal == b.ordinal)

kind_index_inj : (a b : PageKind) → kind_index a ≡ kind_index b → a ≡ b
kind_index_inj a b h = ground arith

pub page_beq_iff : (a b : PageId) → (page_beq a b ≡ true) ↔ (a ≡ b)
page_beq_iff a b =
    ground (arith, string_eq.beq_iff a.model_root b.model_root, kind_index_inj a.kind b.kind)

instance abbrev pub page_eq : PartialEq PageId
page_eq = record { beq = page_beq; beq_iff = page_beq_iff }

pub record RepresentationId : Type 0 where
  pub page_id : PageId
  pub format : String
  pub bytes : ℕ

abbrev representation_code : RepresentationId → PageId × (String × ℕ)
representation_code r = (r.page_id, (r.format, r.bytes))

abbrev of_representation_code : PageId × (String × ℕ) → RepresentationId
of_representation_code c = record { page_id = c.0; format = c.1.0; bytes = c.1.1 }

instance abbrev pub representation_eq : PartialEq RepresentationId
representation_eq =
    eq_by_code (pair_eq page_eq (pair_eq string_eq nat_eq)) representation_code
      of_representation_code (λ r. refl)

pub data ExpertProjection : Type 0 where
  gate up down : ExpertProjection
  other : String → ExpertProjection

abbrev projection_code : ExpertProjection → ℕ × String
projection_code gate = (0, "")
projection_code up = (1, "")
projection_code down = (2, "")
projection_code (other value) = (3, value)

abbrev of_projection_code : ℕ × String → ExpertProjection
of_projection_code (n, value) = nth_or (other value) (gate ∷ up ∷ down ∷ []) n

pub projection_code_lem : (p : ExpertProjection) → of_projection_code (projection_code p) ≡ p
projection_code_lem gate = refl
projection_code_lem up = refl
projection_code_lem down = refl
projection_code_lem (other value) = refl

instance abbrev pub projection_eq : PartialEq ExpertProjection
projection_eq =
    eq_by_code (pair_eq nat_eq string_eq) projection_code of_projection_code projection_code_lem

pub record StorageSlice : Type 0 where
  pub page_id : PageId
  pub model_id : String
  pub source_path : String
  pub shard : String
  pub tensor : String
  pub offset : ℕ
  pub payload_bytes : ℕ
  pub alignment : ℕ
  pub quant_type : String
  pub layer : Option ℕ
  pub expert : Option ℕ
  pub projection : ExpertProjection
  pub checksum_sha256 : Option String
  pub parent_offset : Option ℕ
  pub parent_payload_bytes : Option ℕ

unfoldable pub representation : StorageSlice → RepresentationId
representation slice = record {
  page_id = slice.page_id;
  format = slice.quant_type;
  bytes = slice.payload_bytes;
}

pub data PageLocation : Type 0 where
  nvme_cold ram_pageable ram_pinned : PageLocation
  vram_page vram_slot scratch : ℕ → PageLocation

abbrev location_code : PageLocation → ℕ × ℕ
location_code nvme_cold = (0, 0)
location_code ram_pageable = (1, 0)
location_code ram_pinned = (2, 0)
location_code (vram_page n) = (3, n)
location_code (vram_slot n) = (4, n)
location_code (scratch n) = (5, n)

abbrev of_location_code : ℕ × ℕ → PageLocation
of_location_code (k, n) =
    nth_or (scratch n) (nvme_cold ∷ ram_pageable ∷ ram_pinned ∷ vram_page n ∷ vram_slot n ∷ []) k

pub location_code_lem : (l : PageLocation) → of_location_code (location_code l) ≡ l
location_code_lem nvme_cold = refl
location_code_lem ram_pageable = refl
location_code_lem ram_pinned = refl
location_code_lem (vram_page n) = refl
location_code_lem (vram_slot n) = refl
location_code_lem (scratch n) = refl

instance abbrev pub location_eq : PartialEq PageLocation
location_eq = eq_by_code (pair_eq nat_eq nat_eq) location_code of_location_code location_code_lem

abbrev pub is_vram : PageLocation → Bool
is_vram l = elim l [ vram_page _ ↦ true | vram_slot _ ↦ true | _ ↦ false ]

abbrev pub is_ram : PageLocation → Bool
is_ram l = elim l [ ram_pageable ↦ true | ram_pinned ↦ true | _ ↦ false ]
