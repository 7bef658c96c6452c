-- ===== src/Protocol/Commands.antt =====
-- The commands that Git sends (pkg/protocol/git/commands.go).
use gnoci.Base.{Bool, List, [], ◌∷◌, ◌++◌, Text, text, text_eq, contains}

abbrev pub Command : Type 0
Command = Text

abbrev pub capabilities : Command
capabilities = text "capabilities"

abbrev pub options : Command
options = text "option"

abbrev pub list : Command
list = text "list"

abbrev pub push : Command
push = text "push"

abbrev pub fetch : Command
fetch = text "fetch"

unfoldable pub supported_command : Command → Bool
unfolding contains
supported_command name = contains (capabilities ∷ options ∷ list ∷ push ∷ fetch ∷ []) name

abbrev spaced : List Text → Text
spaced [] = []
spaced (t ∷ ts) = b' ' ∷ (t ++ spaced ts)

-- A slice of strings as %v prints it
abbrev pub show_fields : List Text → Text
show_fields [] = text "[]"
show_fields (t ∷ ts) = b'[' ∷ (t ++ (spaced ts ++ text "]"))
