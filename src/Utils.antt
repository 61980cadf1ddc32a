-- ===== src/Utils.antt =====
-- libs/utils/src/utils.cpp: the splitting of a command line.
use task_master.Base.{List, [], Option, some, none}
use task_master.Base.Text.{Text}

-- The words that `wordexp` gives, `none` when it refuses the text.
abbrev words : Option (List Text) → List Text
words none = []
words (some ws) = ws

unfoldable pub split_shell : (Text → Option (List Text)) → Text → List Text
split_shell wordexp str = words (wordexp str)
