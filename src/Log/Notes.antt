-- ===== src/Log/Notes.antt =====
-- log.c: the calls of `loq` that report anomalies and system calls, with their formats and arguments.
-- What the arguments hold comes from the system or the caller.
use Prim.Native.Char.{code}
use Prim.Native.String.{String}
use capemon.Base.{ℕ, ◌*◌, Option, none, some, List, [], ◌∷◌, ◌++◌, length}
use capemon.Log.Format.{LogArg, int, word, char_ptr, unicode_string}

abbrev pub codes : String → List ℕ
codes String.[] = []
codes (String.◌∷◌ c s) = code c ∷ codes s

-- A text without a NUL in it, with its terminator, or a NULL pointer.
abbrev pub c_string : Option (List ℕ) → LogArg
c_string none = char_ptr none
c_string (some cs) = char_ptr (some (cs ++ 0 ∷ []))

abbrev pub named : String → LogArg
named s = c_string (some (codes s))

-- A UNICODE_STRING with its length in bytes, or NULL.
abbrev pub wide_string : Option (List ℕ) → LogArg
wide_string none = unicode_string none
wide_string (some cs) = unicode_string (some (2 * length cs, some cs))

-- What the caller or the system gives for a text.
abbrev pub TextOrNull : Type 0
TextOrNull = Option (List ℕ)

-- The format and the arguments behind it.
abbrev pub Note : Type 0
Note = List ℕ × List LogArg

unfoldable pub log_hook_anomaly : ℕ → TextOrNull → TextOrNull → ℕ → TextOrNull → Note
log_hook_anomaly tid subcategory funcname hook_addr msg = (
  codes "issps",
  named "ThreadIdentifier"
      ∷ int tid
      ∷ named "Subcategory"
      ∷ c_string subcategory
      ∷ named "FunctionName"
      ∷ c_string funcname
      ∷ named "FunctionAddress"
      ∷ word hook_addr
      ∷ named "Message"
      ∷ c_string msg
      ∷ [],
)

-- `log_breakpoint` has the same format and names.
unfoldable pub log_anomaly : ℕ → TextOrNull → TextOrNull → Note
log_anomaly tid subcategory msg = (
  codes "iss",
  named "ThreadIdentifier"
      ∷ int tid
      ∷ named "Subcategory"
      ∷ c_string subcategory
      ∷ named "Message"
      ∷ c_string msg
      ∷ [],
)

-- A NULL or empty `function`, and a NULL `module`, are left out.
unfoldable pub log_syscall : ℕ → TextOrNull → TextOrNull → ℕ → Note
log_syscall tid (some file) (some (c ∷ function)) retaddr = (
  codes "iosp",
  named "ThreadIdentifier"
      ∷ int tid
      ∷ named "Module"
      ∷ wide_string (some file)
      ∷ named "Function"
      ∷ c_string (some (c ∷ function))
      ∷ named "Return Address"
      ∷ word retaddr
      ∷ [],
)
log_syscall tid none (some (c ∷ function)) retaddr = (
  codes "isp",
  named "ThreadIdentifier"
      ∷ int tid
      ∷ named "Function"
      ∷ c_string (some (c ∷ function))
      ∷ named "Return Address"
      ∷ word retaddr
      ∷ [],
)
log_syscall tid (some file) function retaddr = (
  codes "iop",
  named "ThreadIdentifier"
      ∷ int tid
      ∷ named "Module"
      ∷ wide_string (some file)
      ∷ named "Return Address"
      ∷ word retaddr
      ∷ [],
)
log_syscall tid none function retaddr =
    (codes "ip", named "ThreadIdentifier" ∷ int tid ∷ named "Return Address" ∷ word retaddr ∷ [])

unfoldable pub log_direct_syscall : ℕ → TextOrNull → ℕ → Note
log_direct_syscall tid function addr = (
  codes "isp",
  named "ThreadIdentifier"
      ∷ int tid
      ∷ named "Function"
      ∷ c_string function
      ∷ named "Address"
      ∷ word addr
      ∷ [],
)

unfoldable pub log_procname_anomaly : ℕ → (a b c d : TextOrNull) → Note
log_procname_anomaly tid initial_name initial_path current_name current_path = (
  codes "isoooo",
  named "ThreadIdentifier"
      ∷ int tid
      ∷ named "Subcategory"
      ∷ named "procname"
      ∷ named "OriginalProcessName"
      ∷ wide_string initial_name
      ∷ named "OriginalProcessPath"
      ∷ wide_string initial_path
      ∷ named "ModifiedProcessName"
      ∷ wide_string current_name
      ∷ named "ModifiedProcessPath"
      ∷ wide_string current_path
      ∷ [],
)

unfoldable pub log_hook_modification : ℕ → TextOrNull → ℕ → TextOrNull → TextOrNull → Note
log_hook_modification tid funcname hook_addr msg1 msg2 = (
  codes "isspsss",
  named "ThreadIdentifier"
      ∷ int tid
      ∷ named "Subcategory"
      ∷ named "unhook"
      ∷ named "FunctionName"
      ∷ c_string funcname
      ∷ named "FunctionAddress"
      ∷ word hook_addr
      ∷ named "UnhookType"
      ∷ named "modification"
      ∷ named "OriginalBytes"
      ∷ c_string msg1
      ∷ named "NewBytes"
      ∷ c_string msg2
      ∷ [],
)

unfoldable pub hook_note : String → ℕ → TextOrNull → ℕ → Note
hook_note kind tid funcname hook_addr = (
  codes "issps",
  named "ThreadIdentifier"
      ∷ int tid
      ∷ named "Subcategory"
      ∷ named "unhook"
      ∷ named "FunctionName"
      ∷ c_string funcname
      ∷ named "FunctionAddress"
      ∷ word hook_addr
      ∷ named "UnhookType"
      ∷ named kind
      ∷ [],
)

unfoldable pub log_hook_removal : ℕ → TextOrNull → ℕ → Note
log_hook_removal = hook_note "removal"

unfoldable pub log_hook_restoration : ℕ → TextOrNull → ℕ → Note
log_hook_restoration = hook_note "restored"
