-- ===== src/Domain/TargetId.antt =====
-- `TargetId` of src/domain/types.rs: the validated constructors.
use cache_cleaner.Base.{◌||◌, ltb, if◌then◌else◌, Result, ok, err}
use cache_cleaner.Base.Text.{Text, codes, is_blank, byte_len, has_char}
use cache_cleaner.Domain.Types.{Outcome, returns, panics}

-- `TargetId::new`
unfoldable pub new : Text → Outcome Text
new s =
    if is_blank s || ltb 512 (byte_len s) || has_char s 0 || has_char s 10
    then panics
    else returns s

-- `TargetId::try_new`
unfoldable pub try_new : Text → Result Text Text
try_new s =
    if is_blank s || ltb 512 (byte_len s) || has_char s 0
    then err (codes "invalid TargetId")
    else ok s
