-- ===== src/Text/Run.antt =====
-- To unfold `running` is to unfold all text operations, as a test wants.
use opencode_orchestrator.Prelude.Lists.{any, all, keep}
use opencode_orchestrator.Text.{
  text_eq, is_one_of, starts_with, is_in, is_space, drop_spaces, drop_last_spaces, strip, is_blank,
  split, join, replace, last_part, after_last, after_first, look_up,
}
use opencode_orchestrator.Text.Shlex.{
  is_whitespace, is_quote, emit, add_char, enter, after_escape, read_char, finish, read,
  shlex_split,
}
use opencode_orchestrator.Text.Fnmatch.{
  intervals, to_bracket, class_end, class_of, compile, in_interval, one_matches, matches_after,
  matches, fnmatchcase,
}

unfoldable pub running : Unit {0}
unfolding any all keep look_up text_eq is_one_of starts_with is_in is_space drop_spaces
    drop_last_spaces strip is_blank split join replace last_part after_last after_first
    is_whitespace is_quote emit add_char enter after_escape read_char finish read shlex_split
    intervals to_bracket class_end class_of compile in_interval one_matches matches_after matches
    fnmatchcase
running = tt
