-- ===== src/Prompt.antt =====
-- src/prompt.c: the prompt, from the user's and the host's names, which the system gives.
use redshell.Base.{Option, none, some, ◌∷◌, ◌++◌, Bytes, codes, take, Run, null_pointer, ok, fault}

-- `snprintf(tmp, BUFSIZE, …)`, which keeps a byte for the terminator
unfoldable pub format_prompt : Bytes → Bytes → Bytes
format_prompt username hostname = take 1023 (
    27 ∷ codes "[1;31m"
    ++ (username ++ (codes "@" ++ (hostname ++ (codes " > " ++ (27 ∷ codes "[0m"))))))

-- `pw_name` of the struct that `getpwuid` returned
unfoldable pub user_prompt : Option Bytes → Bytes → Run Bytes
unfolding format_prompt
user_prompt none hostname = fault null_pointer
user_prompt (some username) hostname = ok (format_prompt username hostname)

unfoldable pub set_prompt : Option Bytes → Option Bytes → Bytes → Run Bytes
unfolding user_prompt
set_prompt none user hostname = user_prompt user hostname
set_prompt (some format) user hostname = ok format
