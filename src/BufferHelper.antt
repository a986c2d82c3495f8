-- ===== src/BufferHelper.antt =====
-- `deconz/buffer_helper.h`, which lies in a submodule: the little-endian stores and loads that the
-- code calls, and what it relies on. A store gives the bytes written, a load the value read.
use deconz.Prelude.{ℕ, ◌+◌, ◌*◌, ◌/◌, ◌%◌, ◌<◌, ◌≡◌, refl, List, [], ◌∷◌}

pub record BufferHelper : Type 0 where
  pub put_u8_le : ℕ → List ℕ
  pub put_u16_le : ℕ → List ℕ
  pub get_u16_le : ℕ → ℕ → ℕ

-- The documented layout: one byte, and two bytes with the low one first.
pub record IsLittleEndian (h : BufferHelper) : Type 0 where
  pub put_u8 : (v : ℕ) → v < 256 → h.put_u8_le v ≡ v ∷ []
  pub put_u16 : (v : ℕ) → v < 65536 → h.put_u16_le v ≡ (v % 256) ∷ (v / 256) ∷ []
  pub get_u16 : (lo hi : ℕ) → lo < 256 → hi < 256 → h.get_u16_le lo hi ≡ lo + hi * 256

-- The layout can be met.
abbrev pub little_endian : BufferHelper
little_endian = record {
  put_u8_le = λ v. v ∷ [];
  put_u16_le = λ v. (v % 256) ∷ (v / 256) ∷ [];
  get_u16_le = λ lo hi. lo + hi * 256;
}

pub little_endian-IsLittleEndian : IsLittleEndian little_endian
little_endian-IsLittleEndian = record {
  put_u8 = λ v h. refl;
  put_u16 = λ v h. refl;
  get_u16 = λ lo hi h k. refl;
}
