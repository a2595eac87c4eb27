-- ===== src/Clients/ClientFile.antt =====
-- packages/modules/clients/domain/client-file.ts: the files of a client's folder.
pub mod Kept
pub mod Tests
use amc_system.Base.{
  ℕ, ◌+◌, ◌-◌, ◌++◌, Bool, true, false, not, ◌||◌, Option, none, some, List, [], ◌∷◌, any, filter,
  length, take, drop, is_some, leb, ltb, ◌==◌, if◌then◌else◌,
}
use amc_system.Base.Int.{ℤ, pos, ltb_ℤ}
use amc_system.Base.Text.{Text, text, trim, is_empty, eq_text}
use amc_system.Kernel.Result as Result
use amc_system.Kernel.Result.{Result}
use amc_system.Kernel.Aggregate.{
  Aggregate, Method, ok, err, threw, ◌>>=◌, ◌>>◌, pure, refuse_if, this_state, assign, emit,
}
use amc_system.Kernel.Duration.{Instant}

-- `REFUSED_EXTENSIONS`
abbrev pub refused_extensions : List Text
refused_extensions =
    text "exe"
    ∷ text "msi"
    ∷ text "bat"
    ∷ text "cmd"
    ∷ text "com"
    ∷ text "scr"
    ∷ text "pif"
    ∷ text "vbs"
    ∷ text "vbe"
    ∷ text "js"
    ∷ text "jse"
    ∷ text "wsf"
    ∷ text "wsh"
    ∷ text "ps1"
    ∷ text "jar"
    ∷ text "sh"
    ∷ text "app"
    ∷ text "dmg"
    ∷ text "apk"
    ∷ text "dll"
    ∷ text "lnk"
    ∷ text "hta"
    ∷ text "reg"
    ∷ []

abbrev pub is_refused : Text → Bool
is_refused extension = any (λ r. eq_text r extension) refused_extensions

-- `MAX_FILE_NAME`
abbrev pub max_file_name : ℕ
max_file_name = 200

pub record ClientFileState : Type 0 where
  pub id : Text
  pub client_id : Text
  pub folder_id : Option Text
  pub storage_key : Text
  pub original_name : Text
  pub content_type : Text
  pub checksum : Text
  pub size_bytes : ℤ
  pub uploaded_by : Text
  pub uploaded_at : Instant
  pub removed_at : Option Instant
  pub removed_by : Option Text

-- `lastIndexOf`
abbrev pub last_index_of : ℕ → Text → Option ℕ
last_index_of c [] = none
last_index_of c (x ∷ xs) = elim (last_index_of c xs) [
  | some i ↦ some (i + 1)
  | none ↦ if x == c then some 0 else none
]

-- `extensionOfName`, where `lower` is `toLowerCase`.
unfoldable pub extension_of_name : (Text → Text) → Text → Text
extension_of_name lower name = elim (last_index_of 46 name) [
  | none ↦ []
  | some dot ↦ if ltb 0 dot then lower (drop (dot + 1) name) else []
]

-- `/[\\/]/`
abbrev is_separator : ℕ → Bool
is_separator c = (c == 92) || (c == 47)

-- `raw.split(/[\\/]/).pop()`: `part` is what came since the last separator.
unfoldable pub last_part : Text → Text → Text
last_part part [] = part
last_part part (c ∷ cs) =
    if is_separator c then last_part [] cs else last_part (part ++ (c ∷ [])) cs

-- `/[\u0000-\u001f\u007f"]/`
abbrev is_unprintable : ℕ → Bool
is_unprintable c = leb c 31 || (c == 127) || (c == 34)

abbrev pub printable : Text → Text
printable raw = trim (filter (λ c. not (is_unprintable c)) (last_part [] raw))

abbrev pub tail_of : Text → Text
tail_of extension = if is_empty extension then [] else 46 ∷ take 10 extension

abbrev pub cut : Text → Text → Text
cut name tail = take (max_file_name - length tail) name ++ tail

-- `cleanFileName`
unfoldable pub clean_file_name : (Text → Text) → Text → Text
clean_file_name lower raw =
    if leb (length (printable raw)) max_file_name
    then printable raw
    else cut (printable raw) (tail_of (extension_of_name lower (printable raw)))

pub data FileConflict : Type 0 where
  no_name no_content is_program removed_already was_removed : FileConflict

-- `refuseFile`
unfoldable pub refuse_file : (Text → Text) → Text → ℤ → Option FileConflict
refuse_file lower raw_name size_bytes =
    if is_empty (clean_file_name lower raw_name)
    then some no_name
    else if not (ltb_ℤ (pos 0) size_bytes)
    then some no_content
    else if is_refused (extension_of_name lower (clean_file_name lower raw_name))
    then some is_program
    else none

pub data FileEvent : Type 0 where
  uploaded : Text → Instant → Text → Option Text → Text → ℤ → Text → FileEvent
  removed : Text → Instant → Text → Text → FileEvent
  moved : Text → Instant → Text → Text → Option Text → Option Text → FileEvent

abbrev pub ClientFile : Type 0
ClientFile = Aggregate ClientFileState FileEvent

abbrev pub FileMethod : Type 0 → Type 0
FileMethod = Method ClientFileState FileEvent FileConflict

-- The argument of `ClientFile.receive`.
pub record ReceiveParams : Type 0 where
  pub id : Text
  pub client_id : Text
  pub folder_id : Option Text
  pub storage_key : Text
  pub name : Text
  pub content_type : Text
  pub checksum : Text
  pub size_bytes : ℤ
  pub uploaded_by : Text
  pub now : Instant

abbrev pub received_as : ReceiveParams → Text → ClientFile
received_as p name = record {
  state = record {
    id = p.id;
    client_id = p.client_id;
    folder_id = p.folder_id;
    storage_key = p.storage_key;
    original_name = name;
    content_type = p.content_type;
    checksum = p.checksum;
    size_bytes = p.size_bytes;
    uploaded_by = p.uploaded_by;
    uploaded_at = p.now;
    removed_at = none;
    removed_by = none;
  };
  pending = uploaded p.id p.now p.client_id p.folder_id name p.size_bytes p.checksum ∷ [];
}

-- `receive`
unfoldable pub receive : (Text → Text) → ReceiveParams → Result FileConflict ClientFile
receive lower p = elim (refuse_file lower p.name p.size_bytes) [
  | some refusal ↦ Result.err refusal
  | none ↦ Result.ok (received_as p (clean_file_name lower p.name))
]

-- `remove`
unfoldable pub remove : Text → Instant → FileMethod (Unit {0})
remove by now = do
  s ← this_state
  refuse_if (is_some s.removed_at) removed_already
  assign (record s { removed_at = some now; removed_by = some by })
  emit (removed s.id now s.client_id s.original_name)

abbrev pub eq_folder : Option Text → Option Text → Bool
eq_folder none none = true
eq_folder (some a) (some b) = eq_text a b
eq_folder none (some b) = false
eq_folder (some a) none = false

abbrev move_now : Option Text → Instant → FileMethod (Unit {0})
move_now folder_id now = do
  s ← this_state
  assign (record s { folder_id = folder_id })
  emit (moved s.id now s.client_id s.original_name s.folder_id folder_id)

abbrev pub unless : Bool → FileMethod (Unit {0}) → FileMethod (Unit {0})
unless true m = pure tt
unless false m = m

-- `moveTo`
unfoldable pub move_to : Option Text → Instant → FileMethod (Unit {0})
move_to folder_id now = do
  s ← this_state
  refuse_if (is_some s.removed_at) was_removed
  unless (eq_folder s.folder_id folder_id) (move_now folder_id now)

-- The calls that change a file.
pub data Command : Type 0 where
  removes : Text → Instant → Command
  moves : Option Text → Instant → Command

unfoldable pub execute : Command → FileMethod (Unit {0})
execute (removes by now) = remove by now
execute (moves folder_id now) = move_to folder_id now
