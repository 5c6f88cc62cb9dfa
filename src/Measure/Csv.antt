-- ===== src/Measure/Csv.antt =====
-- dealMROandMRE.cpp: the CSV file that a report becomes.
--
-- Files are their contents by path. A name in a directory has at most 255 bytes, so that the paths
-- fit their buffers.
use cpp_study.Base.{
  ℕ, List, [], ◌∷◌, ◌++◌, Bool, false, ◌&&◌, Option, some, ◌==◌, if◌then◌else◌, get_or,
}
use cpp_study.Base.Exec.{Exec, done, fault, ◌>>=◌}
use cpp_study.Base.Chars.{codes, decimal}
use cpp_study.Ini.{Text, same_text}
use cpp_study.Measure.{MreFile, MroFile}

abbrev pub Files : Type 0
Files = Text → Option Text

unfoldable pub put_file : Files → Text → Text → Files
put_file files path content other = if same_text path other then some content else files other

-- What the loop has to do with a file.
pub data FileType : Type 0 where
  mre : FileType
  mro : FileType
  unknown : FileType

-- MRETableHead and MROTableHead
abbrev pub mre_table_head : Text
mre_table_head =
    codes "objectid,MmeUeS1apId,MmeGroupId,MmeCode,TimeStamp,EventType,"
    ++ codes "MR.LteScRSRP,MR.LteScRSRQ,MR.LteScEarfcn,MR.LteScPci,MR.LteNcRSRP,"
    ++ codes "MR.LteNcRSRQ,MR.LteNcEarfcn,MR.LteNcPci,MR.TdsPccpchRSCP,"
    ++ codes "MR.TdsNcellUarfcn,MR.TdsCellParameterId,MR.GsmNcellBcch,"
    ++ codes "MR.GsmNcellCarrierRSSI,MR.GsmNcellNcc,MR.GsmNcellBcc"

abbrev pub mro_table_head : Text
mro_table_head =
    codes "objectid,MmeUeS1apId,MmeGroupId,MmeCode,TimeStamp,MR.LteScRSRP,"
    ++ codes "MR.LteScRSRQ,MR.LteScTadv,MR.LteSceNBRxTxTimeDiff,MR.LteScPHR,"
    ++ codes "MR.LteScAOA,MR.LteScSinrUL,MR.LteScEarfcn,MR.LteScPci,MR.LteNcRSRP,"
    ++ codes "MR.LteNcRSRQ,MR.LteNcEarfcn,MR.LteNcPci,MR.TdsPccpchRSCP,"
    ++ codes "MR.TdsNcellUarfcn,MR.TdsCellParameterId,MR.GsmNcellBcch,"
    ++ codes "MR.GsmNcellCarrierRSSI,MR.GsmNcellNcc,MR.GsmNcellBcc,"
    ++ codes "MR.LteScPUSCHPRBNum,MR.LteScPDSCHPRBNum,MR.LteScBSR,MR.LteScRI1,"
    ++ codes "MR.LteScRI2,MR.LteScRI4,MR.LteScRI8,OVERLAPP_COVERAGE,MOD3_NCELLS,"
    ++ codes "OVERSHOOT_AOA"

abbrev pub save_file_path : Text
save_file_path = codes "/home/saveFile"

-- Cells with commas between them, and a line feed.
unfoldable pub csv_row : List Text → Text
csv_row [] = 10 ∷ []
csv_row (c ∷ []) = c ++ 10 ∷ []
csv_row (c ∷ d ∷ cells) = c ++ 44 ∷ csv_row (d ∷ cells)

-- The arrays at some places of a struct.
abbrev pub pick : List ℕ → List Text → List Text
pick [] fields = []
pick (i ∷ is) fields = get_or fields i [] ∷ pick is fields

-- The calls of fprintf for a row.
unfoldable pub mre_row : MreFile → Text
unfolding csv_row
mre_row r = csv_row (
    pick (2 ∷ 4 ∷ 6 ∷ 8 ∷ 10 ∷ 12 ∷ []) r.head
    ++ pick (1 ∷ 2 ∷ 3 ∷ 4 ∷ 5 ∷ 6 ∷ 7 ∷ 8 ∷ 9 ∷ 10 ∷ 11 ∷ 12 ∷ 13 ∷ 14 ∷ 15 ∷ []) r.values)

abbrev pub mro_columns : List ℕ
mro_columns =
    1 ∷ 2 ∷ 3 ∷ 4 ∷ 5 ∷ 6 ∷ 7 ∷ 8 ∷ 9 ∷ 10 ∷ 11 ∷ 12 ∷ 13 ∷ 14 ∷ 15 ∷ 16 ∷ 17 ∷ 18 ∷ 19 ∷ 20 ∷ 21
    ∷ 22 ∷ 23 ∷ 24 ∷ 25 ∷ 26 ∷ 27 ∷ []

unfoldable pub mro_row : MroFile → Text
unfolding csv_row
mro_row r = csv_row (
    pick (2 ∷ 4 ∷ 6 ∷ 8 ∷ 10 ∷ []) r.head
    ++ (pick mro_columns r.values
        ++ decimal r.overlapp_coverage ∷ decimal r.mod3_ncells ∷ decimal r.overshoot_aoa ∷ []))

abbrev pub mre_rows : List MreFile → Text
mre_rows [] = []
mre_rows (r ∷ rs) = mre_row r ++ mre_rows rs

abbrev pub mro_rows : List MroFile → Text
mro_rows [] = []
mro_rows (r ∷ rs) = mro_row r ++ mro_rows rs

-- What createCsvFile writes.
unfoldable pub mre_csv : List MreFile → Text
unfolding mre_row
mre_csv rs = mre_table_head ++ 10 ∷ mre_rows rs

unfoldable pub mro_csv : List MroFile → Text
unfolding mro_row
mro_csv rs = mro_table_head ++ 10 ∷ mro_rows rs

-- `while(!((*p1) == '/' && (*p2) == 'T'))`: the text from that T on.
abbrev pub starts_T : Text → Bool
starts_T [] = false
starts_T (c ∷ t) = c == b'T'

abbrev pub from_T : Text → Exec Text
from_T [] = fault
from_T (c ∷ t) = let rest = from_T t in if c == b'/' && starts_T t then done t else rest

-- `while((*p3) != '.')`: the text up to the dot.
abbrev pub until_dot : Text → Exec Text
until_dot [] = fault
until_dot (c ∷ t) =
    let rest = until_dot t in if c == b'.' then done [] else (do name ← rest; done (c ∷ name))

-- The path of the CSV file for a path.
unfoldable pub csv_path : Text → Exec Text
csv_path path = do
  named ← from_T path
  name ← until_dot named
  done (save_file_path ++ (codes "/" ++ (name ++ codes ".csv")))

-- createCsvFile, where `may_write` tells for which paths fopen succeeds.
unfoldable pub create_csv_file : (Text → Bool) → Text → Text → Files → Exec Files
unfolding csv_path put_file
create_csv_file may_write path content files = do
  csv ← csv_path path
  done (if may_write csv then put_file files csv content else files)
