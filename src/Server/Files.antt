-- ===== src/Server/Files.antt =====
-- packages/provider/crates/provider-core/src/server.rs: the names and the bytes of uploads and of
-- pulled files. The SHA-256 library is a parameter, as a function of all the bytes it was fed.
pub mod Names
use yard.Prelude.{
  ℕ, ◌+◌, ◌/◌, ◌%◌, Bool, true, false, Option, none, some, List, [], ◌∷◌, ◌++◌, length, leb,
  if◌then◌else◌, Text, Bytes, codes, keep, map,
}
use yard.Core.Preload.{last_segment, is_safe_char, name_or_default}
use yard.Core.Cleanup.Filter.{lowercase, ends_with}

unfoldable pub sanitize_filename : Text → Text
sanitize_filename raw = name_or_default (keep is_safe_char (last_segment raw raw))

unfoldable pub platform_for_filename : Text → Option Text
platform_for_filename filename =
    if ends_with (lowercase filename) (codes ".apk")
    then some (codes "android")
    else if ends_with (lowercase filename) (codes ".ipa")
    then some (codes "ios")
    else none

abbrev hex_digit : ℕ → ℕ
hex_digit d = if leb d 9 then 48 + d else 87 + d

-- Two digits a byte, in lower case.
unfoldable pub hex : Bytes → Text
hex [] = []
hex (b ∷ bs) = hex_digit (b / 16 % 16) ∷ hex_digit (b % 16) ∷ hex bs

-- A chunk of a body, or how the body or the disk broke there.
pub data Chunk : Type 0 where
  chunk : Bytes → Chunk
  body_breaks disk_breaks : Chunk

-- The file so far, and whether all of the body came.
unfoldable pub write_chunks : Bytes → List Chunk → Bytes × Bool
write_chunks file [] = (file, true)
write_chunks file (chunk bs ∷ cs) = write_chunks (file ++ bs) cs
write_chunks file (body_breaks ∷ cs) = (file, false)
write_chunks file (disk_breaks ∷ cs) = (file, false)

pub record Staged : Type 0 where
  pub content : Bytes
  pub size : ℕ
  pub sha256 : Text

-- `stream_to_disk`; `creates` and `flushes` are whether the file is made and written out.
unfoldable pub stream_to_disk :
    (Bytes → Bytes) → (creates flushes : Bool) → List Chunk → Option Staged
stream_to_disk digest creates flushes cs =
    let (content, complete) = write_chunks [] cs in
    if creates
    then if complete
      then if flushes
        then some
            (record { content = content; size = length content; sha256 = hex (digest content) })
        else none
      else none
    else none
