-- ===== src/Log/Environ.antt =====
-- log.c: the calls of `loq` when the log starts, with their formats and arguments.
use capemon.Base.{ℕ, Bool, true, false, [], ◌∷◌}
use capemon.Log.Format.{int, word, LogArg}
use capemon.Log.Notes.{codes, c_string, named, TextOrNull, Note}

unfoldable pub log_new_process : (low high pid parent : ℕ) → TextOrNull → Note
log_new_process low high pid parent our_process_path = (
  codes "iiiis",
  named "TimeLow"
      ∷ int low
      ∷ named "TimeHigh"
      ∷ int high
      ∷ named "ProcessIdentifier"
      ∷ int pid
      ∷ named "ParentProcessIdentifier"
      ∷ int parent
      ∷ named "ModulePath"
      ∷ c_string our_process_path
      ∷ [],
)

-- The identifier is a DWORD.
unfoldable pub log_new_thread : ℕ → Note
log_new_thread pid = (codes "l", named "ProcessIdentifier" ∷ int pid ∷ [])

-- The texts of `log_environ` in their order, without those of its format that are literals.
pub record Environ : Type 0 where
  pub username : TextOrNull
  pub computername : TextOrNull
  pub installdate : ℕ
  pub winpath : TextOrNull
  pub tmppath : TextOrNull
  pub command_line : TextOrNull
  pub registeredowner : TextOrNull
  pub registeredorg : TextOrNull
  pub productname : TextOrNull
  pub os_major : ℕ
  pub os_minor : ℕ
  pub sysvolserial : TextOrNull
  pub sysvolguid : TextOrNull
  pub machineguid : TextOrNull
  pub mainbase : ℕ
  pub image_size : ℕ
  pub is_64_bit : Bool

unfoldable pub bitness : Bool → LogArg
bitness true = named "64-bit"
bitness false = named "32-bit"

unfoldable pub log_environ : Environ → Note
log_environ v = (
  codes "ssissssssiisssphs",
  named "UserName"
      ∷ c_string v.username
      ∷ named "ComputerName"
      ∷ c_string v.computername
      ∷ named "InstallDate"
      ∷ int v.installdate
      ∷ named "WindowsPath"
      ∷ c_string v.winpath
      ∷ named "TempPath"
      ∷ c_string v.tmppath
      ∷ named "CommandLine"
      ∷ c_string v.command_line
      ∷ named "RegisteredOwner"
      ∷ c_string v.registeredowner
      ∷ named "RegisteredOrganization"
      ∷ c_string v.registeredorg
      ∷ named "ProductName"
      ∷ c_string v.productname
      ∷ named "OSMajor"
      ∷ int v.os_major
      ∷ named "OSMinor"
      ∷ int v.os_minor
      ∷ named "SystemVolumeSerialNumber"
      ∷ c_string v.sysvolserial
      ∷ named "SystemVolumeGUID"
      ∷ c_string v.sysvolguid
      ∷ named "MachineGUID"
      ∷ c_string v.machineguid
      ∷ named "MainExeBase"
      ∷ word v.mainbase
      ∷ named "MainExeSize"
      ∷ int v.image_size
      ∷ named "Bitness"
      ∷ bitness v.is_64_bit
      ∷ [],
)
