-- ===== src/Arguments/Handlers.antt =====
-- What the cases of `parse` in src/arguments.cpp do, by their groups.
pub mod Formats
pub mod Engines
pub mod Basics
pub mod Filters
use async_profiler.Base.{Bool, Option}
use async_profiler.Base.Texts.{Text}
use async_profiler.Arguments.{Arguments}
use async_profiler.Arguments.Names.{
  OptionArg, an_action, a_format, an_engine, a_basic, a_filter, a_style, a_graph,
}
use async_profiler.Arguments.Handlers.Formats.{Handled, on_action, on_format}
use async_profiler.Arguments.Handlers.Engines.{on_engine}
use async_profiler.Arguments.Handlers.Basics.{on_basic}
use async_profiler.Arguments.Handlers.Filters.{on_filter, on_style, on_graph}

-- The body of the case of an option.
unfoldable pub on_option : Bool → OptionArg → Option Text → Arguments → Handled
on_option is_linux (an_action o) value a = on_action o a
on_option is_linux (a_format o) value a = on_format o value a
on_option is_linux (an_engine o) value a = on_engine is_linux o value a
on_option is_linux (a_basic o) value a = on_basic o value a
on_option is_linux (a_filter o) value a = on_filter o value a
on_option is_linux (a_style o) value a = on_style o value a
on_option is_linux (a_graph o) value a = on_graph o value a
