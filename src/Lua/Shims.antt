-- ===== src/Lua/Shims.antt =====
-- plugins/samples/lua/envoy_lua_api_shims.h, and the script in `LuaState::Create`: the Lua code that
-- every interpreter runs first.
use service_extensions_sampl.Base.{Text, codes, String, List, [], ◌∷◌, ◌++◌}

-- A raw string literal from its lines.
unfoldable joined : List String → Text
joined [] = []
joined (line ∷ []) = codes line
joined (line ∷ next ∷ lines) = codes line ++ codes "\n" ++ joined (next ∷ lines)

unfoldable pub lua51_compat_shims : Text
unfolding joined
lua51_compat_shims = joined (
    "" ∷ "  if table then" ∷ "    _G.unpack = table.unpack" ∷ "    if not table.maxn then"
    ∷ "      table.maxn = function(t)" ∷ "        local max = 0" ∷ "        for k, v in pairs(t) do"
    ∷ "          if type(k) == \"number\" and k > max then" ∷ "            max = k"
    ∷ "          end" ∷ "        end" ∷ "        return max" ∷ "      end" ∷ "    end"
    ∷ "    if not table.getn then" ∷ "      table.getn = function(t) return #t end" ∷ "    end"
    ∷ "  end" ∷ "  if math then" ∷ "    if not math.pow then"
    ∷ "      math.pow = function(x, y) return x^y end" ∷ "" ∷ "    end"
    ∷ "    if not math.log10 then" ∷ "      math.log10 = function(x) return math.log(x, 10) end"
    ∷ "    end" ∷ "    if not math.mod then" ∷ "      math.mod = math.fmod" ∷ "    end" ∷ "  end"
    ∷ "" ∷ [])

unfoldable pub status_unwrapper_function_shim : Text
unfolding joined
status_unwrapper_function_shim = joined (
    "" ∷ "  function attach_status_unwrapper(class_name)"
    ∷ "      local class_table = _G[class_name]" ∷ "      if not class_table then return end" ∷ ""
    ∷ "      local getter = __raw_getmetatable or getmetatable"
    ∷ "      local class_meta = getter(class_table)" ∷ "      if not class_meta then return end"
    ∷ "" ∷ "      local function wrap_index(meta)" ∷ "          local orig_index = meta.__index"
    ∷ "          if type(orig_index) ~= \"function\" then return end" ∷ ""
    ∷ "          meta.__index = function(self, key)"
    ∷ "              local property = orig_index(self, key)"
    ∷ "              if type(property) ~= \"function\" then return property end" ∷ ""
    ∷ "              return function(self_arg, ...)"
    ∷ "                  local res = property(self_arg, ...)"
    ∷ "                  if type(res) ~= \"userdata\" then return res end" ∷ ""
    ∷ "                  local ok, is_status = pcall(function() return res.is_status_node end)"
    ∷ "                  if not (ok and is_status) then return res end" ∷ ""
    ∷ "                  if not res:ok() then error(res:message(), 2) end" ∷ ""
    ∷ "                  local ok_val, has_val = pcall(function() return res.has_value end)"
    ∷ "                  if ok_val and has_val then return res:value() end"
    ∷ "                  return nil" ∷ "              end" ∷ "          end" ∷ "      end" ∷ ""
    ∷ "      -- Wrap static methods" ∷ "      wrap_index(class_meta)" ∷ ""
    ∷ "      -- Wrap instance methods by scanning the metatable for instance metatables"
    ∷ "      for k, v in pairs(class_meta) do"
    ∷ "          if type(v) == \"table\" and type(v.__index) == \"function\" then"
    ∷ "              wrap_index(v)" ∷ "          end" ∷ "      end" ∷ "  end" ∷ "" ∷ [])

-- The script that takes away what is dangerous in the libraries.
unfoldable pub stub_script : Text
unfolding joined
stub_script = joined (
    "" ∷ "        local orig_rep = string.rep" ∷ "        string.rep = function(s, n)"
    ∷ "          if #s * n > 65536 then"
    ∷ "            error('string.rep: size limit exceeded (max 64KB)')" ∷ "          end"
    ∷ "          return orig_rep(s, n)" ∷ "        end" ∷ "        load = nil"
    ∷ "        loadstring = nil" ∷ "        loadfile = nil" ∷ "        dofile = nil" ∷ "      "
    ∷ [])
