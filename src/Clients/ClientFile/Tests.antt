-- ===== src/Clients/ClientFile/Tests.antt =====
-- Files at concrete names.
use amc_system.Base.{ℕ, ◌+◌, ◌&&◌, ◌≡◌, refl, none, some, List, [], ◌∷◌, leb, map, if◌then◌else◌}
use amc_system.Base.Int.{pos}
use amc_system.Base.Text.{Text, text, trim, trim_start, eq_text}
use amc_system.Kernel.Result as Result
use amc_system.Kernel.Aggregate.{run_all}
use amc_system.Clients.ClientFile.{
  ReceiveParams, ClientFile, received_as, receive, refuse_file, clean_file_name, extension_of_name,
  last_part, is_program, Command, removes, moves, execute,
}
use amc_system.Clients.ClientFile.Kept.{IsKept, received_file-IsKept}

-- `toLowerCase` on ASCII.
abbrev lower_one : ℕ → ℕ
lower_one c = if leb 65 c && leb c 90 then c + 32 else c

abbrev lower : Text → Text
lower s = map lower_one s

abbrev letter : ReceiveParams
letter = record {
  id = text "f1";
  client_id = text "c1";
  folder_id = none;
  storage_key = text "k";
  name = text "C:\\in/ Letter.PDF ";
  content_type = text "application/pdf";
  checksum = text "x";
  size_bytes = pos 1_000;
  uploaded_by = text "u1";
  now = pos 0;
}

abbrev kept : ClientFile
kept = received_as letter (text "Letter.PDF")

abbrev calls : List Command
calls = moves (some (text "d1")) (pos 1) ∷ removes (text "u1") (pos 2) ∷ []

received_file-IsKept_example : IsKept lower (run_all execute calls kept).state
unfolding receive refuse_file clean_file_name extension_of_name last_part trim trim_start eq_text
received_file-IsKept_example = received_file-IsKept lower letter kept calls refl

refused_then :
    receive lower (record letter { name = text "invoice.pdf.EXE" }) ≡ Result.err is_program
unfolding receive refuse_file clean_file_name extension_of_name last_part trim trim_start eq_text
refused_then = refl
