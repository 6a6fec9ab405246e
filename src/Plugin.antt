-- ===== src/Plugin.antt =====
-- What a plugin says of itself (agent/plugin/plugin.c and plugin.h).
use yella.Prelude.{ℕ, List, [], Text}

-- `yella_plugin_in_cap`, with the handler's and its data's addresses
pub record InCap : Type 0 where
  pub name : Text
  pub version : ℕ
  pub handler : ℕ
  pub udata : ℕ
  pub configs : List Text

-- `yella_plugin_out_cap`
pub record OutCap : Type 0 where
  pub name : Text
  pub version : ℕ

-- `yella_plugin`
pub record Plugin : Type 0 where
  pub name : Text
  pub version : Text
  pub in_caps : List InCap
  pub out_caps : List OutCap
  pub udata : ℕ

unfoldable pub create_plugin : Text → Text → ℕ → Plugin
create_plugin name version udata = record {
  name = name;
  version = version;
  in_caps = [];
  out_caps = [];
  udata = udata;
}

unfoldable pub create_plugin_in_cap : Text → ℕ → ℕ → ℕ → InCap
create_plugin_in_cap name version handler udata = record {
  name = name;
  version = version;
  handler = handler;
  udata = udata;
  configs = [];
}

unfoldable pub create_plugin_out_cap : Text → ℕ → OutCap
create_plugin_out_cap name version = record { name = name; version = version }
