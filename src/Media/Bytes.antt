-- ===== src/Media/Bytes.antt =====
-- Which bytes are a photo or a video in the clear: client/src/lib/media-bytes.ts.
use coachman.Common.{
  ℕ, String, Bool, true, false, ◌&&◌, ◌||◌, not, Option, none, some, List, [], ◌∷◌, length, drop,
  ltb, eqb, truthy, if◌then◌else◌, ◌==◌,
}

-- Whether the bytes begin with `signature`.
unfoldable pub begins : List ℕ → List ℕ → Bool
begins [] bytes = true
begins (b ∷ signature) [] = false
begins (b ∷ signature) (c ∷ bytes) = eqb b c && begins signature bytes

unfoldable pub looks_like_media_bytes : Option (List ℕ) → Bool
unfolding begins
looks_like_media_bytes none = false
looks_like_media_bytes (some bytes) =
    if ltb (length bytes) 12
    then false
    else
        -- JPEG, PNG, GIF
        begins (0xff ∷ 0xd8 ∷ 0xff ∷ []) bytes
        || begins (0x89 ∷ 0x50 ∷ 0x4e ∷ 0x47 ∷ []) bytes
        || begins (0x47 ∷ 0x49 ∷ 0x46 ∷ []) bytes
        -- WEBP: RIFF....WEBP
        || (begins (0x52 ∷ 0x49 ∷ 0x46 ∷ 0x46 ∷ []) bytes
            && begins (0x57 ∷ 0x45 ∷ 0x42 ∷ 0x50 ∷ []) (drop 8 bytes))
        -- ISO BMFF: ....ftyp, and WebM
        || begins (0x66 ∷ 0x74 ∷ 0x79 ∷ 0x70 ∷ []) (drop 4 bytes)
        || begins (0x1a ∷ 0x45 ∷ 0xdf ∷ 0xa3 ∷ []) bytes

unfoldable pub is_plain_media_iv : Option String → Bool
is_plain_media_iv none = true
is_plain_media_iv (some iv) = not (truthy iv) || iv == "plain" || iv == "plain-v1"
