-- ===== src/Tests/Servers.antt =====
-- Examples of the configuration of servers.
use hamyar_ops.Base.{◌≡◌, refl, List, [], ◌∷◌, All, codes}
use hamyar_ops.Base.Chars.{Text, is_space}
use hamyar_ops.ServerConfig.{parse_resolv, resolv_content}
use hamyar_ops.ServerConfig.Resolver.{parse_resolv-resolv_content}
use hamyar_ops.ServerConfig.Resolver.Words.{IsWord}

abbrev two_servers : List Text
two_servers = codes "1.1.1.1" ∷ codes "8.8.8.8" ∷ []

abbrev two_domains : List Text
two_domains = codes "lan" ∷ codes "example.org" ∷ []

two_servers-IsWord : All IsWord two_servers
unfolding is_space
two_servers-IsWord =
    (record { filled = refl; no_space = refl }, (record { filled = refl; no_space = refl }, tt))

two_domains-IsWord : All IsWord two_domains
unfolding is_space
two_domains-IsWord =
    (record { filled = refl; no_space = refl }, (record { filled = refl; no_space = refl }, tt))

parse_resolv-resolv_content_example :
    parse_resolv (resolv_content two_servers two_domains)
    ≡ record { nameservers = two_servers; search = two_domains }
parse_resolv-resolv_content_example =
    parse_resolv-resolv_content two_servers two_domains two_servers-IsWord two_domains-IsWord
